-- ===== src/Prelude/Texts.antt =====
-- Texts as the code joins them and takes them apart.
use Prim.Native.Char.{code}
use Prim.Native.Nat.{ℕ, ◌+◌, ◌<◌}
use Prim.Native.String.{String, count, ◌++◌ as str_append}
use Prim.Native.String
use mathlib.Core.Path.{◌≡◌, refl, ap, sym, ◌∙◌}
use mathlib.Core.Logic.{◌≢◌, ◌↔◌, inl, inr}
use mathlib.Core.Bool.{Bool, true, false}
use mathlib.Core.Option.{Option, none, some}
use mathlib.Core.List.{List, [], ◌∷◌, ◌++◌, append_assoc}
use native.Mathlib.Omega.{arith}
use text.Mathlib.Text.{◌==◌ as str_eq}
use text.Mathlib.TextEquality.{eq_iff}
use mctrader_data.Prelude.Tests.{◌==◌, if◌then◌else◌, Bool-cases, Option-cases}
use mctrader_data.Prelude.Lists.{All, length, length-append}

-- The codes of a text.
abbrev pub codes : String → List ℕ
codes String.[] = []
codes (String.◌∷◌ c s) = code c ∷ codes s

pub count-append : (s t : String) → count (str_append s t) ≡ count s + count t
count-append String.[] t = rw (ap count (String.append.nil t), String.count.nil) (omega arith)
count-append (String.◌∷◌ c s) t =
    rw (String.append.cons c s t, String.count.cons c (str_append s t), String.count.cons c s)
      (omega (arith, count-append s t))

-- A text with something behind it is another text.
pub append-differs : (s t : String) → 0 < count t → str_eq (str_append s t) s ≡ false
append-differs s t h = elim (Bool-cases (str_eq (str_append s t) s)) [
  | inr differs ↦ differs
  | inl same ↦
      let equal : str_append s t ≡ s = (eq_iff (str_append s t) s).0 same in
      absurd (omega (arith, count-append s t, ap count equal))
]

-- Texts that the code takes apart, as the list of their codes: ==, removeprefix, removesuffix.
abbrev pub Text : Type 0
Text = List ℕ

unfoldable pub text_eq : Text → Text → Bool
text_eq [] [] = true
text_eq [] (d ∷ ds) = false
text_eq (c ∷ cs) [] = false
text_eq (c ∷ cs) (d ∷ ds) = let rest = text_eq cs ds in if c == d then rest else false

pub text_eq_iff : (a b : Text) → (text_eq a b ≡ true) ↔ (a ≡ b)
unfolding text_eq
text_eq_iff [] [] = (λ h. refl, λ h. refl)
text_eq_iff [] (d ∷ ds) = (λ h. absurd (ground arith), λ h. absurd (cc h))
text_eq_iff (c ∷ cs) [] = (λ h. absurd (ground arith), λ h. absurd (cc h))
text_eq_iff (c ∷ cs) (d ∷ ds) =
    (λ h. ground (arith, text_eq_iff cs ds), λ h. ground (arith, text_eq_iff cs ds))

pub text_eq_refl : (a : Text) → text_eq a a ≡ true
text_eq_refl a = (text_eq_iff a a).1 refl

-- What is behind the prefix, if the text begins with it.
unfoldable pub strip_prefix : Text → Text → Option Text
strip_prefix [] t = some t
strip_prefix (p ∷ ps) [] = none
strip_prefix (p ∷ ps) (c ∷ cs) = let rest = strip_prefix ps cs in if p == c then rest else none

pub strip_prefix-append : (p t : Text) → strip_prefix p (p ++ t) ≡ some t
unfolding strip_prefix
strip_prefix-append [] t = refl
strip_prefix-append (c ∷ cs) t = ground (arith, strip_prefix-append cs t)

pub strip_prefix-found : (p t r : Text) → strip_prefix p t ≡ some r → t ≡ p ++ r
unfolding strip_prefix
strip_prefix-found [] t r h = ground arith
strip_prefix-found (p ∷ ps) [] r h = absurd (ground arith)
strip_prefix-found (p ∷ ps) (c ∷ cs) r h = ground (arith, strip_prefix-found ps cs r)

abbrev prepend : ℕ → Option Text → Option Text
prepend c none = none
prepend c (some t) = some (c ∷ t)

-- What is before the suffix, if the text ends with it.
unfoldable pub strip_suffix : Text → Text → Option Text
strip_suffix s [] = if text_eq [] s then some [] else none
strip_suffix s (c ∷ cs) =
    let rest = strip_suffix s cs in if text_eq (c ∷ cs) s then some [] else prepend c rest

not_longer : (c : ℕ) (t s : Text) → text_eq (c ∷ t ++ s) s ≡ false
not_longer c t s = elim (Bool-cases (text_eq (c ∷ t ++ s) s)) [
  | inr differs ↦ differs
  | inl same ↦
      let equal : c ∷ t ++ s ≡ s = (text_eq_iff (c ∷ t ++ s) s).0 same in
      absurd (omega (arith, ap length equal, length-append t s))
]

pub strip_suffix-append : (t s : Text) → strip_suffix s (t ++ s) ≡ some t
unfolding strip_suffix
strip_suffix-append [] [] = ground (arith, text_eq_refl [])
strip_suffix-append [] (c ∷ cs) = rw (text_eq_refl (c ∷ cs)) refl
strip_suffix-append (c ∷ cs) s = rw (not_longer c cs s, strip_suffix-append cs s) refl

pub strip_suffix-found : (s t r : Text) → strip_suffix s t ≡ some r → t ≡ r ++ s
unfolding strip_suffix
strip_suffix-found s [] r h = ground (arith, text_eq_iff [] s)
strip_suffix-found s (c ∷ cs) r h = elim (Bool-cases (text_eq (c ∷ cs) s)) [
  | inl whole ↦ ground (arith, text_eq_iff (c ∷ cs) s)
  | inr longer ↦ elim (Option-cases (strip_suffix s cs)) [
    | inl absent ↦ absurd (ground arith)
    | inr (q, found) ↦ ground (arith, strip_suffix-found s cs q found)
  ]
]

-- The last code, and 0 for an empty text.
abbrev pub last : Text → ℕ
last [] = 0
last (c ∷ []) = c
last (c ∷ d ∷ cs) = last (d ∷ cs)

pub last-append : (t : Text) (c : ℕ) (cs : Text) → last (t ++ c ∷ cs) ≡ last (c ∷ cs)
last-append [] c cs = refl
last-append (d ∷ []) c cs = refl
last-append (d ∷ e ∷ t) c cs = last-append (e ∷ t) c cs

-- A text does not end with a suffix whose last code is another one.
pub other_suffix :
    (s t : Text) (c d : ℕ) (cs ds : Text)
    → s ≡ c ∷ cs
    → last (d ∷ ds) ≢ last (c ∷ cs)
    → strip_suffix s (t ++ d ∷ ds) ≡ none
other_suffix s t c d cs ds e differ = elim (Option-cases (strip_suffix s (t ++ d ∷ ds))) [
  | inl absent ↦ absent
  | inr (r, found) ↦
      let equal : t ++ d ∷ ds ≡ r ++ c ∷ cs =
        strip_suffix-found s (t ++ d ∷ ds) r found ∙ ap (λ z. r ++ z) e in
      absurd (differ (sym (last-append t d ds) ∙ ap last equal ∙ last-append r c cs))
]

-- "sep".join(parts), and split(sep), for one character.
unfoldable pub join : ℕ → List Text → Text
join sep [] = []
join sep (p ∷ []) = p
join sep (p ∷ q ∷ ps) = p ++ sep ∷ join sep (q ∷ ps)

abbrev onto_first : ℕ → List Text → List Text
onto_first c [] = (c ∷ []) ∷ []
onto_first c (p ∷ ps) = (c ∷ p) ∷ ps

unfoldable pub split : ℕ → Text → List Text
split sep [] = [] ∷ []
split sep (c ∷ cs) = let rest = split sep cs in if c == sep then [] ∷ rest else onto_first c rest

abbrev pub Without : ℕ → Text → Type 0
Without sep t = All (λ c. (c == sep) ≡ false) t

split-alone : (sep : ℕ) (p : Text) → Without sep p → split sep p ≡ p ∷ []
unfolding split
split-alone sep [] h = refl
split-alone sep (c ∷ cs) h = rw (h.0, split-alone sep cs h.1) refl

split-before :
    (sep : ℕ) (p : Text) (t : Text) → Without sep p → split sep (p ++ sep ∷ t) ≡ p ∷ split sep t
unfolding split
split-before sep [] t h = ground arith
split-before sep (c ∷ cs) t h = rw (h.0, split-before sep cs t h.1) refl

-- Parts without the separator come back from the joined text.
pub split-join :
    (sep : ℕ) (p : Text) (ps : List Text)
    → All (Without sep) (p ∷ ps)
    → split sep (join sep (p ∷ ps)) ≡ p ∷ ps
unfolding join
split-join sep p [] h = split-alone sep p h.0
split-join sep p (q ∷ ps) h =
    rw (split-before sep p (join sep (q ∷ ps)) h.0, split-join sep q ps h.1) refl

suffix_cancel : (e t u : Text) → t ++ e ≡ u ++ e → t ≡ u
suffix_cancel e t u h =
    let same : some t ≡ some u =
      sym (strip_suffix-append t e) ∙ ap (strip_suffix e) h ∙ strip_suffix-append u e in
    ground arith

-- The same, where the two end alike and differ before that.
pub other_suffix_before :
    (e t : Text) (c d : ℕ) (cs ds : Text)
    → last (d ∷ ds) ≢ last (c ∷ cs)
    → strip_suffix ((c ∷ cs) ++ e) (t ++ ((d ∷ ds) ++ e)) ≡ none
other_suffix_before e t c d cs ds differ =
    elim (Option-cases (strip_suffix ((c ∷ cs) ++ e) (t ++ ((d ∷ ds) ++ e)))) [
      | inl absent ↦ absent
      | inr (r, found) ↦
          let whole : t ++ ((d ∷ ds) ++ e) ≡ r ++ ((c ∷ cs) ++ e) =
            strip_suffix-found ((c ∷ cs) ++ e) (t ++ ((d ∷ ds) ++ e)) r found in
          let equal : t ++ d ∷ ds ≡ r ++ c ∷ cs =
            suffix_cancel e (t ++ d ∷ ds) (r ++ c ∷ cs)
              (append_assoc t (d ∷ ds) e ∙ whole ∙ sym (append_assoc r (c ∷ cs) e)) in
          absurd (differ (sym (last-append t d ds) ∙ ap last equal ∙ last-append r c cs))
    ]
