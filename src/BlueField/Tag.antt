-- ===== src/BlueField/Tag.antt =====
-- `extractOCPVersion` on a release image that is put together: repository, tag, architecture.
use Prim.Native.Char.{Char, code}
use Prim.Native.String.{◌++◌}
use text.Mathlib.TextLemmas.{nil-append, cons-append, append-nil, append-eq-nil_iff}
use dpf_hcp_bridge_operator.Base.{
  eq_apart, ℕ, String, false, List, [], ◌∷◌, ◌≡◌, ◌≢◌, refl, ap, sym, ◌∙◌, ◌⊎◌, inl, inr, nat_eq,
  Bool-cases, All,
}
use dpf_hcp_bridge_operator.Base.Text.{append, prepend, split, has_suffix}
use dpf_hcp_bridge_operator.Base.Suffix.{trim_suffix-append, trim_suffix-other, trim_suffix-apart}
use dpf_hcp_bridge_operator.Base.Result.{success}
use dpf_hcp_bridge_operator.BlueField.Version.{
  arch_suffixes, strip_suffixes, last_part, version_of_tag, extract_ocp_version,
}

-- No character of the text has this code point.
abbrev pub Free : ℕ → String → Type 0
Free separator String.[] = Unit {0}
Free separator (String.◌∷◌ c s) = (nat_eq (code c) separator ≡ false) × Free separator s

split-Free : (separator : ℕ) (s : String) → Free separator s → split separator s ≡ s ∷ []
unfolding split
split-Free separator String.[] f = refl
split-Free separator (String.◌∷◌ c s) (other, f) = rw (other, split-Free separator s f) refl

-- Two parts or more, of which this is the last.
EndsIn : String → List String → Type 0
EndsIn tag [] = ⊥
EndsIn tag (x ∷ []) = ⊥
EndsIn tag (x ∷ y ∷ []) = y ≡ tag
EndsIn tag (x ∷ y ∷ z ∷ rest) = EndsIn tag (y ∷ z ∷ rest)

EndsIn-last_part :
    (tag : String) (parts : List String) → EndsIn tag parts → last_part parts ≡ success tag
unfolding last_part EndsIn
EndsIn-last_part tag [] e = absurd e
EndsIn-last_part tag (x ∷ []) e = absurd e
EndsIn-last_part tag (x ∷ y ∷ []) e = ap success e
EndsIn-last_part tag (x ∷ y ∷ z ∷ rest) e = EndsIn-last_part tag (y ∷ z ∷ rest) e

EndsIn-cons : (tag x : String) (parts : List String) → EndsIn tag parts → EndsIn tag (x ∷ parts)
unfolding EndsIn
EndsIn-cons tag x [] e = absurd e
EndsIn-cons tag x (y ∷ []) e = absurd e
EndsIn-cons tag x (y ∷ z ∷ rest) e = e

EndsIn-prepend :
    (tag : String) (c : Char) (parts : List String)
    → EndsIn tag parts
    → EndsIn tag (prepend c parts)
unfolding EndsIn prepend
EndsIn-prepend tag c [] e = absurd e
EndsIn-prepend tag c (x ∷ []) e = absurd e
EndsIn-prepend tag c (x ∷ y ∷ []) e = e
EndsIn-prepend tag c (x ∷ y ∷ z ∷ rest) e = e

split-EndsIn :
    (repository tag : String)
    → Free b':' tag
    → EndsIn tag (split b':' (repository ++ (String.◌∷◌ ":" tag)))
unfolding split EndsIn
split-EndsIn String.[] tag f =
    rw (nil-append (String.◌∷◌ ":" tag)) (rw (split-Free b':' tag f) refl)
split-EndsIn (String.◌∷◌ c s) tag f = rw (cons-append c s (String.◌∷◌ ":" tag)) (
    let parts = split b':' (s ++ (String.◌∷◌ ":" tag)) in
    let ih = split-EndsIn s tag f in
    elim (Bool-cases (nat_eq (code c) b':')) [
      | inl here ↦ rw here (EndsIn-cons tag "" parts ih)
      | inr other ↦ rw other (EndsIn-prepend tag c parts ih)
    ])

-- Neither of two endings ends in the other, unless they are the same.
abbrev Apart : String → String → Type 0
Apart s t = (s ≡ t) ⊎ ((has_suffix s t ≡ false) × (has_suffix t s ≡ false))

-- No suffix of the list ends the text.
abbrev pub Unsuffixed : List String → String → Type 0
Unsuffixed suffixes v = All (λ s. has_suffix v s ≡ false) suffixes

strip_suffixes-Unsuffixed :
    (suffixes : List String) (v : String) → Unsuffixed suffixes v → strip_suffixes suffixes v ≡ v
unfolding strip_suffixes
strip_suffixes-Unsuffixed [] v u = refl
strip_suffixes-Unsuffixed (s ∷ rest) v (other, u) =
    rw (trim_suffix-other v s other) (strip_suffixes-Unsuffixed rest v u)

-- The suffix is one of the list.
abbrev pub Listed : String → List String → Type 0
Listed s [] = ⊥
Listed s (x ∷ xs) = (s ≡ x) ⊎ Listed s xs

strip_suffixes-append :
    (suffixes : List String) (v s : String)
    → Unsuffixed suffixes v
    → All (Apart s) suffixes
    → Listed s suffixes
    → strip_suffixes suffixes (append v s) ≡ v
unfolding strip_suffixes
strip_suffixes-append [] v s u a l = absurd l
strip_suffixes-append (x ∷ rest) v s (other, u) (inl same, a) l =
    rw (sym same) (rw (trim_suffix-append v s) (strip_suffixes-Unsuffixed rest v u))
strip_suffixes-append (x ∷ rest) v s (other, u) (inr (p, q), a) (inl here) =
    rw (sym here) (rw (trim_suffix-append v s) (strip_suffixes-Unsuffixed rest v u))
strip_suffixes-append (x ∷ rest) v s (other, u) (inr (p, q), a) (inr there) =
    rw (trim_suffix-apart v s x p q) (strip_suffixes-append rest v s u a there)

arch_suffixes-Apart : (s : String) → Listed s arch_suffixes → All (Apart s) arch_suffixes
unfolding has_suffix
arch_suffixes-Apart s (inl e) = rw e (
  inl refl,
  (
    inr (refl, refl),
    (inr (refl, refl), (inr (refl, refl), (inr (refl, refl), (inr (refl, refl), tt)))),
  ),
)
arch_suffixes-Apart s (inr (inl e)) = rw e (
  inr (refl, refl),
  (inl refl, (inr (refl, refl), (inr (refl, refl), (inr (refl, refl), (inr (refl, refl), tt))))),
)
arch_suffixes-Apart s (inr (inr (inl e))) = rw e (
  inr (refl, refl),
  (inr (refl, refl), (inl refl, (inr (refl, refl), (inr (refl, refl), (inr (refl, refl), tt))))),
)
arch_suffixes-Apart s (inr (inr (inr (inl e)))) = rw e (
  inr (refl, refl),
  (inr (refl, refl), (inr (refl, refl), (inl refl, (inr (refl, refl), (inr (refl, refl), tt))))),
)
arch_suffixes-Apart s (inr (inr (inr (inr (inl e))))) = rw e (
  inr (refl, refl),
  (inr (refl, refl), (inr (refl, refl), (inr (refl, refl), (inl refl, (inr (refl, refl), tt))))),
)
arch_suffixes-Apart s (inr (inr (inr (inr (inr (inl e)))))) = rw e (
  inr (refl, refl),
  (inr (refl, refl), (inr (refl, refl), (inr (refl, refl), (inr (refl, refl), (inl refl, tt))))),
)
arch_suffixes-Apart s (inr (inr (inr (inr (inr (inr x)))))) = absurd x

arch_suffixes-Free : (s : String) → Listed s arch_suffixes → Free b':' s
arch_suffixes-Free s (inl e) = rw e (refl, (refl, (refl, (refl, (refl, (refl, tt))))))
arch_suffixes-Free s (inr (inl e)) = rw e (refl, (refl, (refl, (refl, (refl, (refl, tt))))))
arch_suffixes-Free s (inr (inr (inl e))) = rw e (refl, (refl, (refl, (refl, (refl, (refl, tt))))))
arch_suffixes-Free s (inr (inr (inr (inl e)))) =
    rw e (refl, (refl, (refl, (refl, (refl, (refl, (refl, (refl, tt))))))))
arch_suffixes-Free s (inr (inr (inr (inr (inl e))))) =
    rw e (refl, (refl, (refl, (refl, (refl, (refl, tt))))))
arch_suffixes-Free s (inr (inr (inr (inr (inr (inl e)))))) =
    rw e (refl, (refl, (refl, (refl, (refl, (refl, (refl, tt)))))))
arch_suffixes-Free s (inr (inr (inr (inr (inr (inr x)))))) = absurd x

Free-append :
    (separator : ℕ) (s t : String) → Free separator s → Free separator t → Free separator (s ++ t)
Free-append separator String.[] t f g = rw (nil-append t) g
Free-append separator (String.◌∷◌ c s) t (other, f) g =
    rw (cons-append c s t) (other, Free-append separator s t f g)

-- No architecture, or one of the list.
abbrev pub IsArch : String → Type 0
IsArch s = (s ≡ "") ⊎ Listed s arch_suffixes

IsArch-Free : (s : String) → IsArch s → Free b':' s
IsArch-Free s (inl e) = rw e tt
IsArch-Free s (inr l) = arch_suffixes-Free s l

strip_arch :
    (v s : String)
    → Unsuffixed arch_suffixes v
    → IsArch s
    → strip_suffixes arch_suffixes (v ++ s) ≡ v
unfolding append
strip_arch v s u (inl e) = rw e (rw (append-nil v) (strip_suffixes-Unsuffixed arch_suffixes v u))
strip_arch v s u (inr l) = strip_suffixes-append arch_suffixes v s u (arch_suffixes-Apart s l) l

-- A tag is not empty where its version is not.
tag_filled : (v s : String) → v ≢ "" → (v ++ s) ≢ ""
tag_filled v s filled e = filled (append-eq-nil_iff.0 e).0

extract-last_part :
    (image tag : String)
    → last_part (split b':' image) ≡ success tag
    → extract_ocp_version image ≡ version_of_tag tag
unfolding extract_ocp_version
extract-last_part image tag e = rw (e, extract_ocp_version) refl

version_of_tag-append :
    (v s : String)
    → v ≢ ""
    → Unsuffixed arch_suffixes v
    → IsArch s
    → version_of_tag (v ++ s) ≡ success v
unfolding version_of_tag
version_of_tag-append v s filled u a =
    rw (eq_apart (v ++ s) "" (tag_filled v s filled), strip_arch v s u a, eq_apart v "" filled) refl

-- The version of a release image that is put together from a repository, a colon, a version and an
-- architecture, or none, is that version, where the version is not empty, has no colon and ends in no
-- architecture itself; the repository may hold colons, as that of a port does.
pub extract_ocp_version-append :
    (repository version arch : String)
    → version ≢ ""
    → Free b':' version
    → Unsuffixed arch_suffixes version
    → IsArch arch
    → extract_ocp_version (append repository (append ":" (append version arch))) ≡ success version
unfolding append
extract_ocp_version-append repository version arch filled free u a =
    let tag = version ++ arch in
    let parts = split b':' (repository ++ (String.◌∷◌ ":" tag)) in
    let ends =
      split-EndsIn repository tag (Free-append b':' version arch free (IsArch-Free arch a)) in
    rw (cons-append ":" "" tag, nil-append tag)
      (extract-last_part _ tag (EndsIn-last_part tag parts ends)
        ∙ version_of_tag-append version arch filled u a)
