-- ===== src/Plm/Sealed.antt =====
-- plm.py, `from_plm_bytes`: the packet that a frame of known bytes becomes.
use insteonrf.Common.{
  ℕ, ◌<◌, ◌≡◌, refl, ap, ◌∙◌, Bool, true, false, some, List, [], ◌∷◌, ◌++◌, arith, if◌then◌else◌,
  ==_self, length, take, length-append, length-take, take-append, ok, list_eq,
}
use mathlib.Core.List.{append_assoc}
use insteonrf.Packet.Fields.Laws.{crc_index-cut, crc_ok-cut}
use insteonrf.Packet.Crc.{first, flag_ext, has_flag, pkt_crc, crc_index_of}
use insteonrf.Packet.Crc.Laws.{IsByte}
use insteonrf.Packet.Address.Laws.{of_bytes, of_seq_bytes}
use insteonrf.Packet.Fields.{Packet, of_data, crc_ok, crc_index}
use insteonrf.Packet.Build.{pad_bytes}
use insteonrf.Plm.{plm_code, from_plm_bytes, air_slots, air_body, message_key, mask_first}

-- the packet that `from_plm_bytes` makes of its bytes up to the CRC
pub sealed : Bool → List ℕ → Packet
sealed ext body =
    let full = body ++ pkt_crc body ∷ [] in of_data (full ++ pad_bytes (length full) ext)

unfoldable pub code_of : Bool → ℕ
code_of true = 0x51
code_of false = 0x50

unfoldable pub tail_of : Bool → List ℕ → List ℕ
tail_of true rest = take 14 rest
tail_of false rest = []

module _ (f2 f1 f0 t2 t1 t0 fl c1 c2 : ℕ) (rest : List ℕ) (hf2 : IsByte f2) (hf1 : IsByte f1)
    (hf0 : IsByte f0) (ht2 : IsByte t2) (ht1 : IsByte t1) (ht0 : IsByte t0) where
  frame : Bool → List ℕ
  frame ext = 0x02 ∷ code_of ext ∷ f2 ∷ f1 ∷ f0 ∷ t2 ∷ t1 ∷ t0 ∷ fl ∷ c1 ∷ c2 ∷ rest

  frame_code :
      (ext : Bool)
      → length (tail_of ext rest) ≡ (if ext then 14 else 0)
      → plm_code (frame ext) ≡ ok (code_of ext)
  unfolding plm_code code_of tail_of frame
  frame_code true len = ground (arith, length-take 14 rest)
  frame_code false len = ground arith

  -- What a frame of the right length becomes.
  pub from_plm_frame :
      (ext : Bool)
      → has_flag fl flag_ext ≡ ext
      → length (tail_of ext rest) ≡ (if ext then 14 else 0)
      → from_plm_bytes (0x02 ∷ code_of ext ∷ f2 ∷ f1 ∷ f0 ∷ t2 ∷ t1 ∷ t0 ∷ fl ∷ c1 ∷ c2 ∷ rest)
        ≡ ok (
            sealed ext (
              fl
              ∷ (air_slots fl (of_bytes f2 f1 f0) (of_bytes t2 t1 t0)
                  ++ (c1 ∷ c2 ∷ tail_of ext rest))))
  unfolding from_plm_bytes code_of tail_of air_body sealed frame
  from_plm_frame true flag len = simp (
    frame_code true len,
    of_seq_bytes f2 f1 f0 hf2 hf1 hf0,
    of_seq_bytes t2 t1 t0 ht2 ht1 ht0,
    flag,
  )
  from_plm_frame false flag len = simp (
    frame_code false len,
    of_seq_bytes f2 f1 f0 hf2 hf1 hf0,
    of_seq_bytes t2 t1 t0 ht2 ht1 ht0,
    flag,
  )

-- A sealed packet, read back.
module _ (ext : Bool) (body : List ℕ) (some_bytes : 0 < length body)
    (whole : length body ≡ crc_index_of (first body)) where
  sealed_cut :
      (sealed ext body).bytes
      ≡ body ++ pkt_crc body ∷ pad_bytes (length (body ++ pkt_crc body ∷ [])) ext
  unfolding sealed
  sealed_cut = append_assoc body (pkt_crc body ∷ []) _

  pub sealed-crc_ok : crc_ok (sealed ext body) ≡ some true
  sealed-crc_ok =
      crc_ok-cut (sealed ext body) body (pkt_crc body) _ sealed_cut some_bytes whole
      ∙ ap some (==_self (pkt_crc body))

  pub sealed-take : take (crc_index (sealed ext body)) (sealed ext body).bytes ≡ body
  sealed-take =
      ap (λ n. take n (sealed ext body).bytes)
        (crc_index-cut (sealed ext body) body _ _ sealed_cut some_bytes whole)
      ∙ ap (take (length body)) sealed_cut
      ∙ take-append body _ (length body) refl

  pub sealed-key : message_key (sealed ext body) ≡ mask_first body
  unfolding message_key
  sealed-key = ground (
    arith,
    sealed-take,
    crc_index-cut (sealed ext body) body _ _ sealed_cut some_bytes whole,
    ap length sealed_cut,
    length-append body (pkt_crc body ∷ pad_bytes (length (body ++ pkt_crc body ∷ [])) ext),
  )
