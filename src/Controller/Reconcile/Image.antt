-- ===== src/Controller/Reconcile/Image.antt =====
-- The feature of `Reconcile` that resolves the image, where there is nothing to object to.
use dpf_hcp_bridge_operator.Base.{
  String, Bool, true, false, some, ◌∷◌, ◌≡◌, refl, ap, sym, ◌==◌, ◌⊎◌, inl, inr, Bool-cases,
  if◌then◌else◌,
}
use dpf_hcp_bridge_operator.Types.{
  DpfHcpBridge, condition_true, condition_false, bluefield_image_resolved,
}
use dpf_hcp_bridge_operator.Platform.{
  Client, Meta, Trace, Call, ConditionLaws, status_at, status?, ok, done, ◌>>=◌, call, on_reply,
  pure,
}
use dpf_hcp_bridge_operator.Report.{set_condition, condition_now, persist_status}
use dpf_hcp_bridge_operator.Report.Laws.{StatusEcho}
use dpf_hcp_bridge_operator.BlueField.Accepted.{Resolvable, resolve_bluefield_image-Accepted}
use dpf_hcp_bridge_operator.Report.Laws.{same_but_status}
use dpf_hcp_bridge_operator.Controller.Reconcile.{
  is_pending, is_failed_phase, disable_image_validation, enabled_image_feature, image_feature,
}

abbrev pub image_flag : String
image_flag = "ENABLE_BLUEFIELD_VALIDATION"

-- The validation of the image is disabled, or the image can be resolved.
abbrev pub ImageAcceptable : Client → DpfHcpBridge → Trace → Type 0
ImageAcceptable k cr h =
    (k.getenv h image_flag == "true" ≡ false)
    ⊎ Resolvable k cr (Call.getenv image_flag (k.getenv h image_flag) ∷ h)

-- Another status of the bridge changes nothing.
pub ImageAcceptable-same :
    (k : Client) (b b' : DpfHcpBridge) (t : Trace)
    → b'.meta ≡ b.meta
    → b'.spec ≡ b.spec
    → ImageAcceptable k b t
    → ImageAcceptable k b' t
ImageAcceptable-same k b b' t meta spec (inl off) = inl off
ImageAcceptable-same k b b' t meta spec (inr a) =
    let moved : Resolvable k (record b { status = b'.status }) _ = record {
      version = a.version;
      given = a.given;
      extracts = a.extracts;
      config_map = a.config_map;
      fetched = a.fetched;
      image = a.image;
      holds = a.holds;
      filled = a.filled;
      tagged = a.tagged;
    } in
    inr (rw (sym (same_but_status b b' meta spec)) moved)

module _ {m : Meta} {k : Client} (laws : ConditionLaws m) (e : StatusEcho k)
    (stored : (t : Trace) (b : DpfHcpBridge) → k.update_bridge_status t b ≡ ok b) where
  persist_if :
      (changed : Bool) (cr : DpfHcpBridge) (t : Trace)
      → ((if changed then persist_status k cr else pure (cr, done)) t).0 ≡ (cr, done)
  unfolding persist_status ◌>>=◌ call on_reply pure
  persist_if true cr t = rw (stored t cr) refl
  persist_if false cr t = refl

  disable_image_validation-Accepted :
      (cr : DpfHcpBridge) (h : Trace)
      → let r = disable_image_validation m k cr h in
        (r.0.1 ≡ done)
        × (status_at m r.0.0.status.conditions bluefield_image_resolved ≡ some condition_true)
  unfolding disable_image_validation set_condition condition_now ◌>>=◌ call pure
  disable_image_validation-Accepted cr h =
      rw persist_if (refl, ap status? (laws.seen-set _ _ _ bluefield_image_resolved))

  enabled_image_feature-Accepted :
      (cr : DpfHcpBridge) (h : Trace)
      → Resolvable k cr h
      → (is_failed_phase cr.status.phase ≡ false
          → ¬ (status_at m cr.status.conditions bluefield_image_resolved ≡ some condition_false))
      → let r = enabled_image_feature m k cr h in
        (r.0.1 ≡ done)
        × ¬ (status_at m r.0.0.status.conditions bluefield_image_resolved ≡ some condition_false)
  unfolding enabled_image_feature pure
  enabled_image_feature-Accepted cr h a unfailed =
      let (on, resolved) = resolve_bluefield_image-Accepted laws e stored cr h a in
      elim (Bool-cases (is_pending cr.status.phase)) [
        | inl pending ↦ rw pending (on, λ bad. cc (bad, resolved))
        | inr other ↦ rw other (elim (Bool-cases (is_failed_phase cr.status.phase)) [
          | inl failed ↦ rw failed (on, λ bad. cc (bad, resolved))
          | inr sound ↦ rw sound (refl, unfailed sound)
        ])
      ]

  pub image_feature-Accepted :
      (cr : DpfHcpBridge) (h : Trace)
      → ImageAcceptable k cr h
      → (is_failed_phase cr.status.phase ≡ false
          → ¬ (status_at m cr.status.conditions bluefield_image_resolved ≡ some condition_false))
      → let r = image_feature m k cr h in
        (r.0.1 ≡ done)
        × ¬ (status_at m r.0.0.status.conditions bluefield_image_resolved ≡ some condition_false)
  unfolding image_feature ◌>>=◌ call
  image_feature-Accepted cr h acceptable unfailed =
      let h' : Trace = Call.getenv image_flag (k.getenv h image_flag) ∷ h in
      let disabled = disable_image_validation-Accepted cr h' in
      elim (Bool-cases (k.getenv h image_flag == "true")) [
        | inr off ↦ rw off (disabled.0, λ bad. cc (bad, disabled.1))
        | inl on ↦ rw on (elim acceptable [
          | inl off ↦ absurd (cc (on, off))
          | inr a ↦ enabled_image_feature-Accepted cr h' a unfailed
        ])
      ]
