-- ===== src/Tests/Texts.antt =====
-- Texts as lists of numbers, for a store that holds lists of numbers.
use Prim.Native.Nat.{Ordering, compare}
use Prim.Native.Char.{Char, char, code, IsScalar}
use Prim.Native.String as Text
use ethereum_elc.Base.{ℕ, ◌≡◌, refl, ap, String, List, [], ◌∷◌}
use ethereum_elc.External.Proto.{IbcAny}
use ethereum_elc.Tests.Coder.{Coder, by, pair}
use ethereum_elc.Tests.Wire.{bytes}

module _ (n : ℕ) where
  -- Whether a number is a character's, in one way at most.
  scalar_dec :
      (a b c : Ordering)
      → compare n 55296 ≡ a
      → compare 57343 n ≡ b
      → compare n 1114112 ≡ c
      → Dec (IsScalar n) × IsProp (IsScalar n)
  scalar_dec Ordering.lt b c p q r = rw p (yes tt, hlevel)
  scalar_dec Ordering.eq Ordering.lt Ordering.lt p q r = rw (p, q, r) (yes tt, hlevel)
  scalar_dec Ordering.eq Ordering.lt Ordering.eq p q r = rw (p, q, r) (no (λ x. x), hlevel)
  scalar_dec Ordering.eq Ordering.lt Ordering.gt p q r = rw (p, q, r) (no (λ x. x), hlevel)
  scalar_dec Ordering.eq Ordering.eq c p q r = rw (p, q) (no (λ x. x), hlevel)
  scalar_dec Ordering.eq Ordering.gt c p q r = rw (p, q) (no (λ x. x), hlevel)
  scalar_dec Ordering.gt Ordering.lt Ordering.lt p q r = rw (p, q, r) (yes tt, hlevel)
  scalar_dec Ordering.gt Ordering.lt Ordering.eq p q r = rw (p, q, r) (no (λ x. x), hlevel)
  scalar_dec Ordering.gt Ordering.lt Ordering.gt p q r = rw (p, q, r) (no (λ x. x), hlevel)
  scalar_dec Ordering.gt Ordering.eq c p q r = rw (p, q) (no (λ x. x), hlevel)
  scalar_dec Ordering.gt Ordering.gt c p q r = rw (p, q) (no (λ x. x), hlevel)

  is_scalar : Dec (IsScalar n)
  is_scalar = (scalar_dec _ _ _ refl refl refl).0

  abbrev as_char : Dec (IsScalar n) → Char
  as_char (yes s) = char n s
  as_char (no out) = char 0 tt

  as_char-yes : (d : Dec (IsScalar n)) (s : IsScalar n) → as_char d ≡ char n s
  as_char-yes (yes t) s = ap (char n) ((scalar_dec _ _ _ refl refl refl).1 t s)
  as_char-yes (no out) s = absurd (out s)

char_of : ℕ → Char
char_of n = as_char n (is_scalar n)

char_of-code : (c : Char) → char_of (code c) ≡ c
unfolding char_of
char_of-code (char n s) = as_char-yes n (is_scalar n) s

pub codes : String → List ℕ
codes Text.[] = []
codes (Text.◌∷◌ c s) = code c ∷ codes s

pub text_of : List ℕ → String
text_of [] = Text.[]
text_of (n ∷ ns) = Text.◌∷◌ (char_of n) (text_of ns)

text_of-codes : (s : String) → text_of (codes s) ≡ s
unfolding codes text_of
text_of-codes Text.[] = refl
text_of-codes (Text.◌∷◌ c s) = rw (char_of-code c, text_of-codes s) refl

abbrev any_pair : IbcAny → List ℕ × List ℕ
any_pair a = (codes a.type_url, a.value)

abbrev of_pair : List ℕ × List ℕ → IbcAny
of_pair (url, value) = record { type_url = text_of url; value = value }

pub of_pair-any_pair : (a : IbcAny) → of_pair (any_pair a) ≡ a
of_pair-any_pair a = rw (text_of-codes a.type_url) refl

abbrev pub any : Coder IbcAny
any = by (pair bytes bytes) any_pair of_pair of_pair-any_pair
