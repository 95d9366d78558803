-- ===== src/Prelude/Text.antt =====
-- Text: the decimal form of a number, and blank text (`s.trim() === ""`).
use Prim.Native.Nat.{ℕ, zero, suc, ◌+◌, ◌-◌, ◌*◌, ◌/◌, ◌%◌, ◌<◌}
use Prim.Native.Char.{Char, code}
use Prim.Native.String.{String, [], ◌∷◌, ◌++◌}
use mathlib.Core.Path.{◌≡◌, refl, sym, ap, ◌∙◌}
use mathlib.Core.Bool.{Bool, true, false, ◌&&◌, ◌||◌}
use mathlib.Core.Option.{Option, none, some}
use native.Mathlib.Omega.{arith}
use text.Mathlib.TextLemmas.{nil-append, cons-append}
use structure.Prelude.Tests.{◌==◌, text_equality, ltb, leb, nat_same, if◌then◌else◌}

-- The white space that `trim` removes: tab to carriage return, space, and Unicode's separators.
unfoldable pub is_white : ℕ → Bool
is_white c =
    (leb 9 c && leb c 13)
    || nat_same c 0x20
    || nat_same c 0xa0
    || nat_same c 0x1680
    || (leb 0x2000 c && leb c 0x200a)
    || nat_same c 0x2028
    || nat_same c 0x2029
    || nat_same c 0x202f
    || nat_same c 0x205f
    || nat_same c 0x3000
    || nat_same c 0xfeff

-- `text.length`, in UTF-16 code units
unfoldable pub utf16_length : String → ℕ
utf16_length [] = 0
utf16_length (c ∷ s) = (if ltb (code c) 0x10000 then 1 else 2) + utf16_length s

-- `text.slice(0, n)`, in UTF-16 code units. Half a surrogate pair is written as U+FFFD.
unfoldable pub clip : ℕ → String → String
clip n [] = []
clip n (c ∷ s) =
    let units = if ltb (code c) 0x10000 then 1 else 2 in
    let rest = clip (n - units) s in if leb n 0 then [] else if ltb n units then "�" else c ∷ rest

unfoldable pub trim_start : String → String
unfolding is_white
trim_start [] = []
trim_start (c ∷ s) = if is_white (code c) then trim_start s else c ∷ s

-- A white character stays if another character follows it.
keep_before : Bool → Char → String → String
keep_before true c [] = []
keep_before white c s = c ∷ s

unfoldable pub trim_end : String → String
unfolding is_white keep_before
trim_end [] = []
trim_end (c ∷ s) = keep_before (is_white (code c)) c (trim_end s)

-- `s.trim()`
unfoldable pub trim : String → String
trim s = trim_end (trim_start s)

-- Whether some character's code passes the test.
unfoldable pub some_char : (ℕ → Bool) → String → Bool
some_char f [] = false
some_char f (c ∷ s) = f (code c) || some_char f s

-- `s.slice(0, i)` and `s.slice(i + 1)` for the first place i of the character with the code
unfoldable pub split_at : ℕ → String → Option (String × String)
split_at mark [] = none
split_at mark (c ∷ s) =
    if nat_same (code c) mark
    then some ([], s)
    else elim (split_at mark s) [ none ↦ none | some (before, after) ↦ some (c ∷ before, after) ]

-- `s.trim() === ""`
unfoldable pub is_blank : String → Bool
unfolding is_white
is_blank [] = true
is_blank (c ∷ s) = is_white (code c) && is_blank s

-- `s.split(c)[0]`, for the character with the code
unfoldable pub until_char : ℕ → String → String
until_char mark [] = []
until_char mark (c ∷ s) = if nat_same (code c) mark then [] else c ∷ until_char mark s

-- `s.slice(0, -n)` if `s.endsWith(suffix)`, for a suffix of n characters
unfoldable pub strip_suffix : String → String → Option String
strip_suffix suffix [] = if [] == suffix then some [] else none
strip_suffix suffix (c ∷ s) =
    if (c ∷ s) == suffix
    then some []
    else elim (strip_suffix suffix s) [ none ↦ none | some start ↦ some (c ∷ start) ]

digit : ℕ → Char
digit zero = "0"
digit (suc zero) = "1"
digit (suc (suc zero)) = "2"
digit (suc (suc (suc zero))) = "3"
digit (suc (suc (suc (suc zero)))) = "4"
digit (suc (suc (suc (suc (suc zero))))) = "5"
digit (suc (suc (suc (suc (suc (suc zero)))))) = "6"
digit (suc (suc (suc (suc (suc (suc (suc zero))))))) = "7"
digit (suc (suc (suc (suc (suc (suc (suc (suc zero)))))))) = "8"
digit _ = "9"

decimal_from : ℕ → ℕ → String
unfolding digit
decimal_from zero n = ""
decimal_from (suc f) n =
    let more = decimal_from f (n / 10) ++ (digit (n % 10) ∷ []) in
    if ltb n 10 then digit n ∷ [] else more

-- `${n}` of a natural number. A number has at most as many digits as its value plus one.
unfoldable pub decimal : ℕ → String
unfolding decimal_from
decimal n = decimal_from (suc n) n

value : ℕ → String → ℕ
value acc [] = acc
value acc (c ∷ s) = value (acc * 10 + (code c - 48)) s

value-append : (acc : ℕ) (s t : String) → value acc (s ++ t) ≡ value (value acc s) t
unfolding value
value-append acc [] t = rw nil-append
value-append acc (c ∷ s) t = rw cons-append (value-append (acc * 10 + (code c - 48)) s t)

code-digit : (d : ℕ) → d < 10 → code (digit d) - 48 ≡ d
unfolding digit
code-digit zero h = refl
code-digit (suc zero) h = refl
code-digit (suc (suc zero)) h = refl
code-digit (suc (suc (suc zero))) h = refl
code-digit (suc (suc (suc (suc zero)))) h = refl
code-digit (suc (suc (suc (suc (suc zero))))) h = refl
code-digit (suc (suc (suc (suc (suc (suc zero)))))) h = refl
code-digit (suc (suc (suc (suc (suc (suc (suc zero))))))) h = refl
code-digit (suc (suc (suc (suc (suc (suc (suc (suc zero)))))))) h = refl
code-digit (suc (suc (suc (suc (suc (suc (suc (suc (suc zero))))))))) h = refl
code-digit (suc (suc (suc (suc (suc (suc (suc (suc (suc (suc d)))))))))) h = absurd (omega arith)

value-digit : (acc d : ℕ) → d < 10 → value acc (digit d ∷ []) ≡ acc * 10 + d
unfolding value
value-digit acc d h = ap (λ x. acc * 10 + x) (code-digit d h)

value-decimal_from : (f n : ℕ) → n < f → value 0 (decimal_from f n) ≡ n
unfolding decimal_from
value-decimal_from zero n h = elim h [ ]
value-decimal_from (suc f) n h = ground (
  arith,
  value-append 0 (decimal_from f (n / 10)) (digit (n % 10) ∷ []),
  value-decimal_from f (n / 10),
  value-digit 0 n,
  value-digit (n / 10) (n % 10),
)

-- Two numbers with the same decimal form are equal.
pub decimal_injective : (m n : ℕ) → decimal m ≡ decimal n → m ≡ n
unfolding decimal
decimal_injective m n p =
    sym (value-decimal_from (suc m) m (omega arith))
    ∙ ap (value 0) p
    ∙ value-decimal_from (suc n) n (omega arith)
