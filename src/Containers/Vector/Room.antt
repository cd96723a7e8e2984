-- ===== src/Containers/Vector/Room.antt =====
-- The tests before `ensure_size` in the methods that add elements: afterwards there is room.
use otf_cpt.Common.{
  ℕ, ◌+◌, ◌≤◌, inl, inr, some, subst, sym, List, arith, length, ltb, ◌==◌, Bool-cases,
  if◌then◌else◌,
}
use otf_cpt.Containers.Vector.Buffer.{Sized}
use otf_cpt.Containers.Vector.Methods.{Vector, capacity, ensure_size}
use otf_cpt.Containers.Vector.Contents.{Fits, Holds, Gives, ensure_size-Gives}

module _ {A : Type 0} ⦃sized : Sized A⦄ where
  pub room_one :
      (v : Vector A) (xs : List A)
      → Holds v xs
      → Fits sized.size_of (length xs + 1)
      → (g : Gives v (if v.size == capacity v then ensure_size (v.size + 1) v else some v) xs)
        × (length xs + 1 ≤ g.vector.buffer.cap)
  unfolding capacity
  room_one v xs h f = elim (Bool-cases (v.size == v.buffer.last)) [
    | inl e ↦
        let (g, n) =
          ensure_size-Gives (v.size + 1) v xs h
            (subst (λ n. Fits sized.size_of (n + 1)) (sym h.size) f) in
        (
          record { vector = g.vector; returned = rw e g.returned; holds = g.holds; room = g.room },
          omega (arith, h.size),
        )
    | inr e ↦ (
      record { vector = v; returned = rw e; holds = h; room = omega arith },
      ground (arith, h.size, h.fits, h.whole),
    )
  ]

  pub room_many :
      (n : ℕ) (v : Vector A) (xs : List A)
      → Holds v xs
      → Fits sized.size_of n
      → (g : Gives v (if ltb (capacity v) n then ensure_size n v else some v) xs) × (n
          ≤ g.vector.buffer.cap)
  unfolding capacity
  room_many n v xs h f = elim (Bool-cases (ltb v.buffer.last n)) [
    | inl e ↦
        let (g, m) = ensure_size-Gives n v xs h f in
        (
          record { vector = g.vector; returned = rw e g.returned; holds = g.holds; room = g.room },
          m,
        )
    | inr e ↦ (
      record { vector = v; returned = rw e; holds = h; room = omega arith },
      ground (arith, h.whole),
    )
  ]
