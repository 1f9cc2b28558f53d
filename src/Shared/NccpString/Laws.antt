-- ===== src/Shared/NccpString/Laws.antt =====
-- What the constructors of nccp_string keep of their argument, and its comparisons.
use onldaemons.Prelude.{
  ℕ, zero, suc, ◌≤◌, ◌<◌, ◌≡◌, ◌↔◌, ◌∙◌, sym, refl, ap, true, false, List, [], ◌∷◌, All, arith, ltb,
  if◌then◌else◌, length, take, take_all, Bool-cases, inl, inr,
}
use onldaemons.Shared.NccpString.{
  NccpString, IsNccpString, c_str, strncpy, of_c_string, copy_string, get_string, same_bytes,
  less_bytes, ◌==◌,
}

strncpy-take : (n : ℕ) (c : List ℕ) → n ≤ length (c_str c) → strncpy n c ≡ take n (c_str c)
unfolding strncpy c_str
strncpy-take zero c h = refl
strncpy-take (suc n) [] h = absurd (omega arith)
strncpy-take (suc n) (x ∷ c) h = ground (arith, strncpy-take n c)

c_str-take : (n : ℕ) (c : List ℕ) → c_str (take n (c_str c)) ≡ take n (c_str c)
unfolding c_str
c_str-take zero c = refl
c_str-take (suc n) [] = refl
c_str-take (suc n) (x ∷ c) = ground (arith, c_str-take n c)

take_clamp :
    (m : ℕ) (xs : List ℕ) → take (if ltb m (length xs) then m else length xs) xs ≡ take m xs
take_clamp m xs = elim (Bool-cases (ltb m (length xs))) [
  | inl e ↦ rw e
  | inr e ↦ rw e (take_all (length xs) xs (omega arith) ∙ sym (take_all m xs (ground arith)))
]

clamp-le : (m l : ℕ) → (if ltb m l then m else l) ≤ l
clamp-le m l = ground arith

-- A string built from a C string reads back as the text up to its NUL, cut to 255 bytes.
pub get_string-of_c_string : (c : List ℕ) → get_string (of_c_string c) ≡ take 255 (c_str c)
unfolding get_string of_c_string
get_string-of_c_string c =
    ap c_str (strncpy-take _ c (clamp-le 255 (length (c_str c))) ∙ take_clamp 255 (c_str c))
    ∙ c_str-take 255 c

take-All : (n : ℕ) (xs : List ℕ) → All (λ c. c < 256) xs → All (λ c. c < 256) (take n xs)
take-All zero xs h = tt
take-All (suc n) [] h = tt
take-All (suc n) (x ∷ xs) h = (h.0, take-All n xs h.1)

strncpy-All : (n : ℕ) (c : List ℕ) → All (λ c. c < 256) c → All (λ c. c < 256) (strncpy n c)
unfolding strncpy
strncpy-All zero c h = tt
strncpy-All (suc n) [] h = (omega arith, strncpy-All n [] tt)
strncpy-All (suc n) (x ∷ c) h = (h.0, ground (arith, strncpy-All n c h.1, strncpy-All n [] tt))

pub length-strncpy : (n : ℕ) (c : List ℕ) → length (strncpy n c) ≡ n
unfolding strncpy
length-strncpy zero c = refl
length-strncpy (suc n) [] = ap suc (length-strncpy n [])
length-strncpy (suc n) (x ∷ c) = ap suc (length-strncpy n _)

pub of_c_string-IsNccpString : (c : List ℕ) → All (λ b. b < 256) c → IsNccpString (of_c_string c)
unfolding of_c_string
of_c_string-IsNccpString c h = record {
  short =
      ground
        (arith, length-strncpy (if ltb 255 (length (c_str c)) then 255 else length (c_str c)) c);
  bytes = strncpy-All _ c h;
}

c_str-strncpy : (n : ℕ) (c : List ℕ) → length c ≤ n → c_str (strncpy n c) ≡ c_str c
unfolding strncpy c_str
c_str-strncpy zero [] h = refl
c_str-strncpy zero (x ∷ c) h = absurd (omega arith)
c_str-strncpy (suc n) [] h = refl
c_str-strncpy (suc n) (x ∷ c) h = ground (arith, c_str-strncpy n c)

-- A copy reads as the original, also when the original holds a NUL.
pub get_string-copy_string : (s : NccpString) → get_string (copy_string s) ≡ get_string s
unfolding get_string copy_string
get_string-copy_string s = c_str-strncpy _ _ (omega arith)

pub same_bytes_iff : (xs ys : List ℕ) → (same_bytes xs ys ≡ true) ↔ (xs ≡ ys)
unfolding same_bytes
same_bytes_iff [] [] = (λ _. refl, λ _. refl)
same_bytes_iff [] (y ∷ ys) = (λ e. cc, λ e. cc)
same_bytes_iff (x ∷ xs) [] = (λ e. cc, λ e. cc)
same_bytes_iff (x ∷ xs) (y ∷ ys) = ground (arith, same_bytes_iff xs ys)

-- Two strings are equal by operator== exactly when they read back as the same text.
pub ==_iff_get_string : (a b : NccpString) → ((a == b) ≡ true) ↔ (get_string a ≡ get_string b)
unfolding ◌==◌ get_string
==_iff_get_string a b = same_bytes_iff _ _

less_bytes_trans :
    (xs ys zs : List ℕ)
    → less_bytes xs ys ≡ true
    → less_bytes ys zs ≡ true
    → less_bytes xs zs ≡ true
unfolding less_bytes
less_bytes_trans xs [] zs p q = cc
less_bytes_trans xs (y ∷ ys) [] p q = cc
less_bytes_trans [] (y ∷ ys) (z ∷ zs) p q = refl
less_bytes_trans (x ∷ xs) (y ∷ ys) (z ∷ zs) p q = ground (arith, less_bytes_trans xs ys zs)

less_bytes_total : (xs ys : List ℕ) → less_bytes xs ys ≡ false → less_bytes ys xs ≡ false → xs ≡ ys
unfolding less_bytes
less_bytes_total [] [] p q = refl
less_bytes_total [] (y ∷ ys) p q = cc
less_bytes_total (x ∷ xs) [] p q = cc
less_bytes_total (x ∷ xs) (y ∷ ys) p q = ground (arith, less_bytes_total xs ys)

less_bytes_irrefl : (xs : List ℕ) → less_bytes xs xs ≡ false
unfolding less_bytes
less_bytes_irrefl [] = refl
less_bytes_irrefl (x ∷ xs) = ground (arith, less_bytes_irrefl xs)
