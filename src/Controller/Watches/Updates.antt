-- ===== src/Controller/Watches/Updates.antt =====
-- Which updates of a HostedCluster pass the watch of internal/controller/dpfhcpbridge_controller.go.
use dpf_hcp_bridge_operator.Base.{
  none_apart, and_true, String, Bool, true, false, not, Option, none, some, List, [], ◌∷◌, ◌≡◌,
  refl, ap, sym, ◌∙◌, ◌↔◌, inl, inr, arith, eq_refl, Option-cases,
}
use dpf_hcp_bridge_operator.Types.{Condition, HostedCluster}
use dpf_hcp_bridge_operator.Controller.Watches.{count, last_of_type, all_same, conditions_equal}
use dpf_hcp_bridge_operator.Controller.Watches.Setup.{hosted_cluster_predicate}
use dpf_hcp_bridge_operator.Controller.Watches.Readings.{
  Told, told, told?, Distinct, same_condition_iff, last_of_type-later, last_of_type-here,
  last_of_type-cases,
}
use dpf_hcp_bridge_operator.Controller.Watches.Counting.{Has, Has-cases, count-Distinct}

-- A reader of any type is told the same by both lists.
abbrev pub TellsSame : List Condition → List Condition → Type 0
TellsSame old_conds new_conds =
    (kind : String) → told? (last_of_type old_conds kind) ≡ told? (last_of_type new_conds kind)

-- What the new list says of a type, the old list says too.
abbrev Covers : List Condition → List Condition → Type 0
Covers old_conds new_conds =
    (kind : String) (d : Condition)
    → last_of_type new_conds kind ≡ some d
    → told? (last_of_type old_conds kind) ≡ some (told d)

last_of_type-nil : (kind : String) → last_of_type [] kind ≡ none
unfolding last_of_type
last_of_type-nil kind = refl

all_same-Covers : (olds news : List Condition) → all_same olds news ≡ true → Covers olds news
unfolding all_same
all_same-Covers olds [] passes kind d e = absurd (none_apart d (sym e ∙ last_of_type-nil kind))
all_same-Covers olds (c ∷ cs) passes kind d e =
    let (first, rest) = and_true _ _ passes in
    elim (last_of_type-cases c d cs kind e) [
      | inl (same_kind, same) ↦
          rw (sym same_kind, sym same) ((same_condition_iff (last_of_type olds c.kind) c).0 first)
      | inr later ↦ all_same-Covers olds cs rest kind d later
    ]

Covers-later : (olds cs : List Condition) (c : Condition) → Covers olds (c ∷ cs) → Covers olds cs
Covers-later olds cs c covers kind d e = covers kind d (last_of_type-later c d cs kind e)

Covers-all_same :
    (olds news : List Condition) → Distinct news → Covers olds news → all_same olds news ≡ true
unfolding all_same
Covers-all_same olds [] distinct covers = refl
Covers-all_same olds (c ∷ cs) (fresh, distinct) covers =
    let first : last_of_type (c ∷ cs) c.kind ≡ some c =
      rw (last_of_type-here c cs c.kind fresh) (rw (eq_refl c.kind) refl) in
    let heads = (same_condition_iff (last_of_type olds c.kind) c).1 (covers c.kind c first) in
    let tails = Covers-all_same olds cs distinct (Covers-later olds cs c covers) in rw heads tails

told?-some : (o : Option Condition) (t : Told) → told? o ≡ some t → (d : Condition) × (o ≡ some d)
told?-some none t e = absurd (cc e)
told?-some (some d) t e = (d, refl)

told?-none : (o : Option Condition) → told? o ≡ none → o ≡ none
told?-none none e = refl
told?-none (some d) e = absurd (cc e)

Covers-Has :
    (olds news : List Condition)
    → Covers olds news
    → (kind : String) → Has news kind
    → Has olds kind
Covers-Has olds news covers kind (d, e) = told?-some _ _ (covers kind d e)

last_kind :
    (cs : List Condition) (d : Condition) (kind : String)
    → last_of_type cs kind ≡ some d
    → d.kind ≡ kind
last_kind [] d kind e = absurd (none_apart d (sym e ∙ last_of_type-nil kind))
last_kind (c ∷ cs) d kind e = elim (last_of_type-cases c d cs kind e) [
  | inl (same_kind, same) ↦ rw (sym same) same_kind
  | inr later ↦ last_kind cs d kind later
]

-- Where the counts agree, the old list has no type of its own.
TellsSame-Covers :
    (olds news : List Condition)
    → Distinct news
    → count olds ≡ count news
    → Covers olds news
    → TellsSame olds news
TellsSame-Covers olds news distinct counts covers kind =
    elim (Option-cases (last_of_type news kind)) [
      | inl absent ↦ elim (Option-cases (last_of_type olds kind)) [
        | inl gone ↦ rw (absent, gone) refl
        | inr (d, extra) ↦
            let wider =
              count-Distinct (d ∷ news) olds (rw (last_kind olds d kind extra) absent, distinct)
                (λ other has. elim (Has-cases other d news has) [
                  | inl same ↦
                      (d, ap (last_of_type olds) (sym same ∙ last_kind olds d kind extra) ∙ extra)
                  | inr later ↦ Covers-Has olds news covers other later
                ]) in
            absurd (omega (arith, counts, wider))
      ]
      | inr (d, got) ↦ rw got (covers kind d got)
    ]

TellsSame-Has :
    (olds news : List Condition)
    → TellsSame olds news
    → (kind : String) → Has olds kind
    → Has news kind
TellsSame-Has olds news same kind (d, e) = told?-some _ (told d) (sym (same kind) ∙ ap told? e)

TellsSame-sym : (olds news : List Condition) → TellsSame olds news → TellsSame news olds
TellsSame-sym olds news same kind = sym (same kind)

TellsSame-count :
    (olds news : List Condition)
    → Distinct olds
    → Distinct news
    → TellsSame olds news
    → count olds ≡ count news
TellsSame-count olds news distinct_olds distinct_news same =
    let up = count-Distinct olds news distinct_olds (TellsSame-Has olds news same) in
    let down =
      count-Distinct news olds distinct_news
        (TellsSame-Has news olds (TellsSame-sym olds news same)) in
    omega (arith, up, down)

conditions_equal_iff :
    (olds news : List Condition)
    → (conditions_equal olds news ≡ true)
      ↔ ((count olds ≡ count news) × (all_same olds news ≡ true))
unfolding conditions_equal
conditions_equal_iff olds news = ground arith

not_iff : (b : Bool) → (not b ≡ false) ↔ (b ≡ true)
not_iff b = ground arith

-- Where neither list names a type twice: an update of a HostedCluster is dropped exactly when, for
-- every type of condition, both versions tell a reader the same status, reason and message, or both
-- have no such condition.
pub hosted_cluster_predicate_exact :
    (old new : HostedCluster)
    → Distinct old.conditions
    → Distinct new.conditions
    → (hosted_cluster_predicate.update_func old new ≡ false)
      ↔ TellsSame old.conditions new.conditions
unfolding hosted_cluster_predicate
hosted_cluster_predicate_exact old new distinct_old distinct_new =
    let olds = old.conditions in
    let news = new.conditions in
    let dropped = not_iff (conditions_equal olds news) in
    let equal = conditions_equal_iff olds news in
    (
      (λ e.
          let (counts, passes) = equal.0 (dropped.0 e) in
          TellsSame-Covers olds news distinct_new counts (all_same-Covers olds news passes)),
      (λ same. dropped.1 (
          equal.1 (
            TellsSame-count olds news distinct_old distinct_new same,
            Covers-all_same olds news distinct_new (λ kind d e. same kind ∙ ap told? e),
          ))),
    )
