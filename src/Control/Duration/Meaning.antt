-- ===== src/Control/Duration/Meaning.antt =====
-- What `parse_duration` accepts, and what it raises.
use wow_server_sim.Common.{
  ℕ, ℤ, int_text, String, ◌≡◌, refl, ◌⊎◌, inl, inr, ◌↔◌, Option, none, some, chop, chop-snoc,
  chop_cases, sym, ap, ◌∙◌, parse_int, arith,
}
use wow_server_sim.Common.Numerals.{parse_int-int_text}
use wow_server_sim.Float.{Float, whole, infinite}
use wow_server_sim.Effects.{Error, value_error, overflow_error, ok, raise}
use Prim.Native.Char.{Char, code}
use Prim.Native.String.{◌++◌}
use text.Mathlib.TextEquality.{Char-path}
use wow_server_sim.Control.Duration.{ticks_per_second, by_suffix, parse_duration}

module _ {R : Type 0} (fl : Float R) where
  open fl use {of_ℕ, mul, parse, to_int}

  -- `text` is an int and a `t`, or a float and an `s`.
  abbrev pub Means : (text : String) → ℤ → Type 0
  Means text z =
      ((body : String) × (text ≡ body ++ "t") × (parse_int body ≡ some z))
      ⊎ ((body : String) × (x : R) × (text ≡ body ++ "s")
          × (parse body ≡ some x)
          × (to_int (mul x (of_ℕ ticks_per_second)) ≡ whole z))

  abbrev pub Overflows : (text : String) → Type 0
  Overflows text =
      (body : String) × (x : R) × (text ≡ body ++ "s")
      × (parse body ≡ some x)
      × (to_int (mul x (of_ℕ ticks_per_second)) ≡ infinite)

  -- Any int written in decimal with a `t` behind it is read back as that number of ticks.
  pub parse_duration-int_text : (z : ℤ) → parse_duration fl (int_text z ++ "t") ≡ ok z
  unfolding parse_duration
  parse_duration-int_text z = rw (chop-snoc, parse_int-int_text) refl

  suffix_means :
      (text body : String) (k : ℕ) (z : ℤ)
      → by_suffix fl text (some (body, k)) ≡ ok z
      → ((k ≡ 116) × (parse_int body ≡ some z))
        ⊎ ((k ≡ 115)
            × (x : R) × (parse body ≡ some x)
            × (to_int (mul x (of_ℕ ticks_per_second)) ≡ whole z))
  suffix_means text body k z h = ground arith

  -- The ways in which a text is not accepted.
  abbrev pub Refused : (text : String) → Error → Type 0
  Refused text e =
      ((m : String) × (e ≡ value_error m))
      ⊎ ((m : String) × (e ≡ overflow_error m) × Overflows text)

  suffix_raises :
      (text body : String) (k : ℕ) (e : Error)
      → by_suffix fl text (some (body, k)) ≡ raise e
      → ((m : String) × (e ≡ value_error m))
        ⊎ ((m : String) × (e ≡ overflow_error m)
            × (k ≡ 115)
            × (x : R) × (parse body ≡ some x)
            × (to_int (mul x (of_ℕ ticks_per_second)) ≡ infinite))
  suffix_raises text body k e h = ground arith

  last_t : (t : String) (c : Char) → code c ≡ b't' → t ++ String.◌∷◌ c String.[] ≡ t ++ "t"
  last_t t c h = ap (λ d. t ++ String.◌∷◌ d String.[]) (Char-path c "t" h)

  last_s : (t : String) (c : Char) → code c ≡ b's' → t ++ String.◌∷◌ c String.[] ≡ t ++ "s"
  last_s t c h = ap (λ d. t ++ String.◌∷◌ d String.[]) (Char-path c "s" h)

  unsplit :
      (text : String) (p : Option (String × ℕ))
      → chop text ≡ p
      → parse_duration fl text ≡ by_suffix fl text p
  unfolding parse_duration
  unsplit text p h = ap (by_suffix fl text) h

  means : (text : String) (z : ℤ) → parse_duration fl text ≡ ok z → Means text z
  means text z h = elim (chop_cases text) [
    | inl (empty, split) ↦ let wrong = sym (unsplit text none split) ∙ h in absurd cc
    | inr (t, c, e, split) ↦
        elim (suffix_means text t (code c) z (sym (unsplit text _ split) ∙ h)) [
          | inl (k, p) ↦ inl (t, e ∙ last_t t c k, p)
          | inr (k, x, p, i) ↦ inr (t, x, e ∙ last_s t c k, p, i)
        ]
  ]

  accepts : (text : String) (z : ℤ) → Means text z → parse_duration fl text ≡ ok z
  accepts text z (inl (body, e, p)) =
      unsplit text (some (body, b't')) (ap chop e ∙ chop-snoc body "t") ∙ rw p refl
  accepts text z (inr (body, x, e, p, i)) =
      unsplit text (some (body, b's')) (ap chop e ∙ chop-snoc body "s") ∙ rw (p, i) refl

  -- A text means a number of ticks exactly if it is an int with a `t` behind it, or a float with an
  -- `s` behind it whose twentyfold is finite.
  pub parse_duration-Means :
      (text : String) (z : ℤ) → (parse_duration fl text ≡ ok z) ↔ Means text z
  parse_duration-Means text z = (means text z, accepts text z)

  -- What is raised is a ValueError, or else an OverflowError, for a float with an `s` behind it whose
  -- twentyfold is infinite.
  pub parse_duration-Refused :
      (text : String) (e : Error) → parse_duration fl text ≡ raise e → Refused text e
  parse_duration-Refused text e h = elim (chop_cases text) [
    | inl (empty, split) ↦
        let raised = sym (unsplit text none split) ∙ h in inl ("Empty duration string", cc)
    | inr (t, c, e', split) ↦
        elim (suffix_raises text t (code c) e (sym (unsplit text _ split) ∙ h)) [
          | inl (m, v) ↦ inl (m, v)
          | inr (m, v, k, x, p, i) ↦ inr (m, v, (t, x, e' ∙ last_s t c k, p, i))
        ]
  ]
