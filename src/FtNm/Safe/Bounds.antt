-- ===== src/FtNm/Safe/Bounds.antt =====
-- `is_safe` as an interval of addresses.
use nm.Common.{ℕ, ◌+◌, ◌-◌, ◌^◌, ◌≤◌, ◌<◌, ◌≡◌, ◌↔◌, ◌⊎◌, inl, inr, Bool-cases, true, leb, arith}
use nm.Machine.{Machine, Ptr}
use nm.FtNm.Safe.{distance, is_safe}

distance_in : (m : Machine) (p : Ptr) → m.g_begin ≤ p → p < 2 ^ 63 → distance m p ≡ p - m.g_begin
distance_in m p le low = omega arith

distance_below :
    (m : Machine) (p : Ptr) → p < m.g_begin → m.g_begin < 2 ^ 63 → 2 ^ 63 ≤ distance m p
distance_below m p lt fits = omega arith

pub in_or_below : (a b : ℕ) → (a ≤ b) ⊎ (b < a)
in_or_below a b = elim (Bool-cases (leb a b)) [
  | inl le ↦ inl (ground arith)
  | inr gt ↦ inr (ground arith)
]

-- The test, as a test of the distance.
is_safe-distance :
    (p : Ptr) (m : Machine)
    → (is_safe p m ≡ true) ↔ ((distance m p < 2 ^ 63) × (distance m p ≤ m.g_map_size))
unfolding is_safe
is_safe-distance p m = let d = distance m p in ground arith

-- For a mapping below 2 ^ 63 and an address below 2 ^ 63, `is_safe` holds exactly from the first
-- byte of the mapping to the place one past its last byte.
pub is_safe_iff :
    (p : Ptr) (m : Machine)
    → p < 2 ^ 63
    → m.g_begin + m.g_map_size < 2 ^ 63
    → (is_safe p m ≡ true) ↔ ((m.g_begin ≤ p) × (p ≤ m.g_begin + m.g_map_size))
is_safe_iff p m low fits = (
  λ h. interval_of (in_or_below m.g_begin p) ((is_safe-distance p m).0 h),
  λ (le, over).
      let d : distance m p ≡ p - m.g_begin = distance_in m p le low in
      (is_safe-distance p m).1 (omega arith, omega arith),
)
  where
    interval_of :
        (m.g_begin ≤ p) ⊎ (p < m.g_begin)
        → (distance m p < 2 ^ 63) × (distance m p ≤ m.g_map_size)
        → (m.g_begin ≤ p) × (p ≤ m.g_begin + m.g_map_size)
    interval_of (inl le) (near, within) =
        let d : distance m p ≡ p - m.g_begin = distance_in m p le low in (le, omega arith)
    interval_of (inr lt) (near, within) =
        let far : 2 ^ 63 ≤ distance m p = distance_below m p lt (omega arith) in
        absurd (omega arith)
