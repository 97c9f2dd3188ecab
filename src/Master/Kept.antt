-- ===== src/Master/Kept.antt =====
-- Two values of a key of which a reader can see the same, where a tombstone may vanish.
use cs.Prelude.{◌≡◌, ◌⊎◌, refl, ap, sym, ◌∙◌, Option, none, some, true, Bool-cases, inl, inr}
use cs.Layout.{is_tomb}
use cs.Assoc.{or_else}
use cs.Key.{Value}
use cs.Key.Bytes.{value_layout}
use cs.Merge.Reference.{live_value}

pub or_else_assoc : (a b c : Option Value) → or_else (or_else a b) c ≡ or_else a (or_else b c)
or_else_assoc none b c = refl
or_else_assoc (some v) b c = refl

pub or_else-none : (a : Option Value) → or_else a none ≡ a
or_else-none none = refl
or_else-none (some v) = refl

-- A value, or a tombstone that is gone.
abbrev pub IsKept : Option Value → Option Value → Type 0
IsKept before after =
    (after ≡ before) ⊎ ((after ≡ none) × (v : Value) × (before ≡ some v) × (is_tomb v ≡ true))

pub IsKept-live : (a b : Option Value) → IsKept (or_else a b) (or_else a (live_value b))
IsKept-live (some v) b = inl refl
IsKept-live none none = inl refl
IsKept-live none (some v) = elim (Bool-cases (is_tomb v)) [
  | inl t ↦ inr (rw t, v, refl, t)
  | inr n ↦ inl (rw n)
]

-- What is there after is there before.
pub IsKept-some : {a b : Option Value} {v : Value} → IsKept a b → b ≡ some v → a ≡ some v
IsKept-some (inl same_value) e = sym same_value ∙ e
IsKept-some {v = v} (inr (gone, w, was, t)) e = let clash : none ≡ some v = sym gone ∙ e in cc

pub IsKept-or_else :
    (g : Option Value) {x y : Option Value} → IsKept x y → IsKept (or_else g x) (or_else g y)
IsKept-or_else none kept = kept
IsKept-or_else (some v) kept = inl refl

pub IsKept-trans : {x y z : Option Value} → IsKept x y → IsKept y z → IsKept x z
IsKept-trans (inl e) (inl f) = inl (f ∙ e)
IsKept-trans (inl e) (inr (gone, v, was, t)) = inr (gone, v, sym e ∙ was, t)
IsKept-trans (inr (gone, v, was, t)) (inl f) = inr (f ∙ gone, v, was, t)
IsKept-trans (inr (gone, v, was, t)) (inr (gone', v', was', t')) = inr (gone', v, was, t)

pub IsKept-live_value : (a b : Option Value) → IsKept a b → live_value b ≡ live_value a
IsKept-live_value a b (inl e) = ap (λ x. live_value x) e
IsKept-live_value a b (inr (gone, v, was, t)) =
    ap (λ x. live_value x) gone ∙ sym (ap (λ x. live_value x) was ∙ rw t)
