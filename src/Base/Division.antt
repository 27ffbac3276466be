-- ===== src/Base/Division.antt =====
-- Quotients and remainders of numbers that are given as both.
use Prim.Native.Nat.{ℕ, ◌+◌, ◌*◌, ◌/◌, ◌%◌, ◌<◌}
use mathlib.Core.Path.{◌≡◌, ap, sym, ◌∙◌}
use native.Mathlib.Nat.{div-eq_of_lt-le, div-add-mod'}
use native.Mathlib.Omega.{arith}

pub div-of_parts : (bs q r : ℕ) → r < bs → (q * bs + r) / bs ≡ q
div-of_parts bs q r h = ground (arith, div-eq_of_lt-le {k = q} bs {m = q * bs + r})

pub mod-of_parts : (bs q r : ℕ) → r < bs → (q * bs + r) % bs ≡ r
mod-of_parts bs q r h =
    omega (arith, div-add-mod' (q * bs + r) bs, ap (λ k. k * bs) (div-of_parts bs q r h))

-- A quotient and a remainder are the only ones.
pub divided_once : (n a b r s : ℕ) → r < n → s < n → a * n + r ≡ b * n + s → (a ≡ b) × (r ≡ s)
divided_once n a b r s hr hs e =
    let same_quotient : a ≡ b =
      sym (div-of_parts n a r hr) ∙ ap (λ k. k / n) e ∙ div-of_parts n b s hs in
    (same_quotient, omega (arith, e, ap (λ k. k * n) same_quotient))
