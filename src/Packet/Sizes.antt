-- ===== src/Packet/Sizes.antt =====
-- Filling a packet: mmedia/base/Packet.h, lines 57 to 72, and Packet.cc.
use wl_tmm.Prelude.{ℕ, ◌+◌, ◌-◌, ◌%◌, ◌^◌, ◌≤◌, ◌<◌, ◌≡◌, refl, ap, ◌∙◌, List, [], ◌∷◌, arith}
use wl_tmm.Prelude.Int.{pos}
use wl_tmm.Packet.{Packet, to_int32, new_packet, space, packet_size, update_packet_size}

abbrev pub sum : List ℕ → ℕ
sum [] = 0
sum (n ∷ ns) = n + sum ns

to_int32_lem : (n : ℕ) → n < 2 ^ 31 → to_int32 n ≡ pos n
to_int32_lem n small = ground (arith, small)

module _ {E : Type 0} where
  unfoldable pub update_all : List ℕ → Packet E → Packet E
  update_all [] p = p
  update_all (len ∷ lens) p = update_all lens (update_packet_size len p)

  update_all-size :
      (lens : List ℕ) (p : Packet E)
      → p.size + sum lens < 2 ^ 31
      → (update_all lens p).size ≡ p.size + sum lens
  unfolding update_all update_packet_size
  update_all-size [] p h = omega arith
  update_all-size (len ∷ lens) p h =
      let step : (p.size + len) % 2 ^ 32 ≡ p.size + len = omega (arith, h) in
      update_all-size lens (update_packet_size len p) (omega (arith, h, step)) ∙ omega (arith, step)

  update_all-capacity : (lens : List ℕ) (p : Packet E) → (update_all lens p).capacity ≡ p.capacity
  unfolding update_all update_packet_size
  update_all-capacity [] p = refl
  update_all-capacity (len ∷ lens) p = update_all-capacity lens (update_packet_size len p)

-- For a new packet of a capacity below 2^31, after sizes are added that do not exceed it together,
-- the size is their sum, and the space is the rest of the capacity.
pub space-update_all :
    (E : Type 0) (capacity : ℕ) (lens : List ℕ)
    → capacity < 2 ^ 31
    → sum lens ≤ capacity
    → let p = update_all lens (new_packet {E = E} capacity) in
      (packet_size p ≡ pos (sum lens)) × (space p ≡ pos (capacity - sum lens))
unfolding new_packet packet_size space
space-update_all E capacity lens small fits =
    let p = update_all lens (new_packet {E = E} capacity) in
    let size : p.size ≡ sum lens =
      update_all-size lens (new_packet {E = E} capacity) (omega (arith, small, fits))
      ∙ omega arith in
    let cap : p.capacity ≡ capacity = update_all-capacity lens (new_packet {E = E} capacity) in
    let left : (p.capacity + 2 ^ 32 - p.size) % 2 ^ 32 ≡ capacity - sum lens =
      omega (arith, small, fits, size, cap) in
    (
      ap to_int32 size ∙ to_int32_lem (sum lens) (omega (arith, small, fits)),
      ap to_int32 left ∙ to_int32_lem (capacity - sum lens) (omega (arith, small)),
    )
