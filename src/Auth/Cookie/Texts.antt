-- ===== src/Auth/Cookie/Texts.antt =====
-- Text that is free of some characters is not cut at them, and is not trimmed.
use Prim.Native.Char.{Char, code}
use structure.Prelude.{
  String, ℕ, Bool, [], ◌∷◌, some, true, false, append_text, split_at, split_on, trim, trim_start,
  trim_end, some_char, is_white, until_char, ◌≡◌, refl, nat_same, arith,
}
use text.Mathlib.TextLemmas.{nil-append, cons-append}

-- No character of the text passes the test.
abbrev pub Free : (ℕ → Bool) → String → Type 0
Free f text = some_char f text ≡ false

module _ (f g : ℕ → Bool) (weaker : (c : ℕ) → g c ≡ true → f c ≡ true) where
  pub Free-weaker : (s : String) → Free f s → Free g s
  unfolding some_char
  Free-weaker String.[] h = refl
  Free-weaker (String.◌∷◌ c s) h = ground (arith, weaker (code c), Free-weaker s)

pub Free-append : (f : ℕ → Bool) (s t : String) → Free f s → Free f t → Free f (append_text s t)
unfolding some_char
Free-append f String.[] t h k = rw nil-append k
Free-append f (String.◌∷◌ c s) t h k = rw cons-append (ground (arith, Free-append f s t))

module _ (mark : ℕ) where
  abbrev is_mark : ℕ → Bool
  is_mark c = nat_same c mark

  pub split_at-append :
      (s t : String) (c : Char)
      → Free is_mark s
      → code c ≡ mark
      → split_at mark (append_text s (String.◌∷◌ c t)) ≡ some (s, t)
  unfolding some_char split_at
  split_at-append String.[] t c h e = rw nil-append (ground arith)
  split_at-append (String.◌∷◌ d s) t c h e = rw cons-append (ground (arith, split_at-append s t c))

  pub until_char-append :
      (s t : String) (c : Char)
      → Free is_mark s
      → code c ≡ mark
      → until_char mark (append_text s (String.◌∷◌ c t)) ≡ s
  unfolding some_char until_char
  until_char-append String.[] t c h e = rw nil-append (ground arith)
  until_char-append (String.◌∷◌ d s) t c h e =
      rw cons-append (ground (arith, until_char-append s t c))

  pub split_on-append :
      (s t : String) (c : Char)
      → Free is_mark s
      → code c ≡ mark
      → split_on mark (append_text s (String.◌∷◌ c t)) ≡ s ∷ split_on mark t
  unfolding some_char split_on
  split_on-append String.[] t c h e = rw nil-append (ground arith)
  split_on-append (String.◌∷◌ d s) t c h e = rw cons-append (ground (arith, split_on-append s t c))

  pub split_on-Free : (s : String) → Free is_mark s → split_on mark s ≡ s ∷ []
  unfolding some_char split_on
  split_on-Free String.[] h = refl
  split_on-Free (String.◌∷◌ d s) h = ground (arith, split_on-Free s)

trim_start-Free : (s : String) → Free is_white s → trim_start s ≡ s
unfolding some_char trim_start
trim_start-Free String.[] h = refl
trim_start-Free (String.◌∷◌ c s) h = ground arith

trim_end-Free : (s : String) → Free is_white s → trim_end s ≡ s
unfolding some_char trim_end
trim_end-Free String.[] h = refl
trim_end-Free (String.◌∷◌ c s) h = ground (arith, trim_end-Free s)

pub trim-Free : (s : String) → Free is_white s → trim s ≡ s
unfolding trim
trim-Free s h = rw (trim_start-Free s h) (trim_end-Free s h)

-- A space before it is cut off.
pub trim-space : (s : String) → trim (String.◌∷◌ " " s) ≡ trim s
unfolding trim trim_start is_white
trim-space s = refl
