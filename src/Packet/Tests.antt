-- ===== src/Packet/Tests.antt =====
-- A new packet, and one that is filled.
use wl_tmm.Prelude.{ℕ, ◌≡◌, refl, [], ◌∷◌, true, arith}
use wl_tmm.Prelude.Int.{pos, negsuc}
use wl_tmm.Packet.{new_packet, is_video, is_key_frame, packet_size, space, update_packet_size}
use wl_tmm.Packet.Sizes.{update_all, space-update_all}

-- A packet of no known type is a key frame of a video.
unknown : (is_video (new_packet {E = ℕ} 8) ≡ true) × (is_key_frame (new_packet {E = ℕ} 8) ≡ true)
unfolding new_packet is_video is_key_frame
unknown = (refl, refl)

-- More than the capacity makes the space negative.
overfull : space (update_packet_size 10 (new_packet {E = ℕ} 8)) ≡ negsuc 1
unfolding space update_packet_size new_packet
overfull = refl

space-update_all_example :
    (packet_size (update_all (3 ∷ 4 ∷ []) (new_packet {E = ℕ} 8)) ≡ pos 7)
    × (space (update_all (3 ∷ 4 ∷ []) (new_packet {E = ℕ} 8)) ≡ pos 1)
space-update_all_example = space-update_all ℕ 8 (3 ∷ 4 ∷ []) (omega arith) (omega arith)
