-- ===== src/Master/Serve/Objects.antt =====
-- The words that `parse` takes from a line of bytes: each is an `unsigned long`.
use cs.Prelude.{
  ◌>>=◌, bind_some, ℕ, zero, suc, ◌*◌, ◌<◌, ◌≡◌, ap, sym, ◌∙◌, List, [], ◌∷◌, ◌++◌, Option, none,
  some, ltb, leb, Bool, true, ◌&&◌, ◌==◌, if◌then◌else◌, get_or, length, take, drop, arith, inl,
  inr, Bool-cases, some_inj,
}
use mathlib.Core.Path.{subst}
use cs.Key.{Words}
use cs.Key.Bytes.{word_of_bytes, of_bytes, InRange}
use cs.Master.Serve.{
  find_byte, behind, substr, object, Line, read_line, write_line, other_line, parse,
}

abbrev pub IsBytes : List ℕ → Type 0
IsBytes [] = Unit {0}
IsBytes (b ∷ bs) = (b < 256) × IsBytes bs

abbrev pub all_bytes : List ℕ → Bool
all_bytes [] = true
all_bytes (b ∷ bs) = ltb b 256 && all_bytes bs

pub all_bytes-IsBytes : (a : List ℕ) → all_bytes a ≡ true → IsBytes a
all_bytes-IsBytes [] e = tt
all_bytes-IsBytes (b ∷ bs) e = elim (Bool-cases (ltb b 256)) [
  | inl l ↦ (ground (arith, l), all_bytes-IsBytes bs (ground (arith, l, e)))
  | inr n ↦ absurd (ground (arith, n, e))
]

IsBytes-append : (xs ys : List ℕ) → IsBytes xs → IsBytes ys → IsBytes (xs ++ ys)
IsBytes-append [] ys h g = g
IsBytes-append (x ∷ xs) ys h g = (h.0, IsBytes-append xs ys h.1 g)

IsBytes-drop : (n : ℕ) (xs : List ℕ) → IsBytes xs → IsBytes (drop n xs)
IsBytes-drop zero xs h = h
IsBytes-drop (suc n) [] h = tt
IsBytes-drop (suc n) (x ∷ xs) h = IsBytes-drop n xs h.1

IsBytes-take : (n : ℕ) (xs : List ℕ) → IsBytes xs → IsBytes (take n xs)
IsBytes-take zero xs h = tt
IsBytes-take (suc n) [] h = tt
IsBytes-take (suc n) (x ∷ xs) h = (h.0, IsBytes-take n xs h.1)

-- 256 to the power `n`.
abbrev top : ℕ → ℕ
top zero = 1
top (suc n) = 256 * top n

word_of_bytes-bound : (n : ℕ) (bs : List ℕ) → IsBytes bs → word_of_bytes n bs < top n
word_of_bytes-bound zero bs h = omega arith
word_of_bytes-bound (suc n) [] h = let below = word_of_bytes-bound n [] tt in omega arith
word_of_bytes-bound (suc n) (b ∷ bs) h =
    let low = h.0 in let below = word_of_bytes-bound n bs h.1 in omega arith

of_bytes-InRange : (n : ℕ) (bs : List ℕ) → IsBytes bs → InRange n (of_bytes n bs)
of_bytes-InRange zero bs h = tt
of_bytes-InRange (suc n) bs h =
    (word_of_bytes-bound 8 bs h, of_bytes-InRange n (drop 8 bs) (IsBytes-drop 8 bs h))

object-InRange : (y : List ℕ) {ws : Words 8} → IsBytes y → object y ≡ some ws → InRange 8 ws
unfolding object
object-InRange y h e = elim (Bool-cases (leb 63 (length y))) [
  | inl long ↦
      let same_words =
        some_inj (sym (ap (λ b. if b then some (of_bytes 8 (y ++ 0 ∷ [])) else none) long) ∙ e) in
      subst (InRange 8) same_words
        (of_bytes-InRange 8 (y ++ 0 ∷ []) (IsBytes-append y (0 ∷ []) h (omega arith, tt)))
  | inr short ↦
      let clash = sym (ap (λ b. if b then some (of_bytes 8 (y ++ 0 ∷ [])) else none) short) ∙ e in
      cc
]

substr-IsBytes :
    (pos n : ℕ) (a : List ℕ) {y : List ℕ} → IsBytes a → substr pos n a ≡ some y → IsBytes y
unfolding substr
substr-IsBytes pos n a h e = elim (Bool-cases (ltb (length a) pos)) [
  | inl past ↦
      let clash = sym (ap (λ b. if b then none else some (take n (drop pos a))) past) ∙ e in cc
  | inr inside ↦
      let is_part =
        some_inj (sym (ap (λ b. if b then none else some (take n (drop pos a))) inside) ∙ e) in
      subst IsBytes is_part (IsBytes-take n (drop pos a) (IsBytes-drop pos a h))
]

-- The two strings of a line as objects.
abbrev read_of : List ℕ → Option Line
read_of a = substr (behind 1 (find_byte b' ' a)) 64 a >>= λ y. object y >>= λ k. some (read_line k)

abbrev write_of : List ℕ → Option Line
write_of a = substr (behind 2 (find_byte b'w' a)) 64 a >>= λ y.
    substr (behind 2 (find_byte b',' a)) 64 a >>= λ z.
    object y >>= λ k. object z >>= λ v. some (write_line k v)

abbrev pub IsWide : Line → Type 0
IsWide (read_line k) = InRange 8 k
IsWide (write_line k v) = InRange 8 k × InRange 8 v
IsWide other_line = Unit {0}

read_of-IsWide : (a : List ℕ) {l : Line} → IsBytes a → read_of a ≡ some l → IsWide l
read_of-IsWide a h e =
    let (y, cut, e1) = bind_some (substr (behind 1 (find_byte b' ' a)) 64 a) _ e in
    let (k, is_k, e2) = bind_some (object y) _ e1 in
    subst IsWide (some_inj e2) (object-InRange y (substr-IsBytes _ 64 a h cut) is_k)

write_of-IsWide : (a : List ℕ) {l : Line} → IsBytes a → write_of a ≡ some l → IsWide l
write_of-IsWide a h e =
    let (y, cut, e1) = bind_some (substr (behind 2 (find_byte b'w' a)) 64 a) _ e in
    let (z, cut_z, e2) = bind_some (substr (behind 2 (find_byte b',' a)) 64 a) _ e1 in
    let (k, is_k, e3) = bind_some (object y) _ e2 in
    let (v, is_v, e4) = bind_some (object z) _ e3 in
    subst IsWide (some_inj e4) (
      object-InRange y (substr-IsBytes _ 64 a h cut) is_k,
      object-InRange z (substr-IsBytes _ 64 a h cut_z) is_v,
    )

pub parse-IsWide : (a : List ℕ) {l : Line} → IsBytes a → parse a ≡ some l → IsWide l
unfolding parse
parse-IsWide a h e = elim (Bool-cases (get_or a 0 0 == b'r')) [
  | inl r ↦ read_of-IsWide a h (
      sym (
        ap
          (λ b.
            if b then read_of a else if get_or a 0 0 == b'w' then write_of a else some other_line)
          r)
      ∙ e)
  | inr n ↦
      let rest =
        sym (
          ap
            (λ b.
              if b then read_of a else if get_or a 0 0 == b'w' then write_of a else some other_line)
            n)
        ∙ e in
      elim (Bool-cases (get_or a 0 0 == b'w')) [
        | inl w ↦
            write_of-IsWide a h (sym (ap (λ b. if b then write_of a else some other_line) w) ∙ rest)
        | inr m ↦
            subst IsWide
              (some_inj (sym (ap (λ b. if b then write_of a else some other_line) m) ∙ rest)) tt
      ]
]
