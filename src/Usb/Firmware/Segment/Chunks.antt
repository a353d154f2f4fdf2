-- ===== src/Usb/Firmware/Segment/Chunks.antt =====
-- A segment as the list of its chunks.
use mathlib.Core.List.{append_assoc}
use rtw88_pub.Base.{
  ℕ, zero, suc, ◌+◌, ◌-◌, ◌≤◌, ◌≡◌, refl, sym, ap, ◌∙◌, arith, ◌⊎◌, inl, inr, Bool, true, false,
  List, [], ◌∷◌, ◌++◌, M, ◌>>◌, pure, ltb, ◌==◌, if◌then◌else◌, length, drop, take_all,
  take_all-append, length-append, drop-append, drop-drop, bind_ext, bind_same,
}
use rtw88_pub.Usb.Softc.{UsbDevice}
use rtw88_pub.Usb.Firmware.{Loader, on_softc}
use rtw88_pub.Usb.Firmware.Packet.{BulkPipes, submit_pkt, send_firmware_pkt}
use rtw88_pub.Usb.Firmware.Segment.{
  max_chunk, place, chunk_loop, reset_checksum, finish_segment, download_firmware_segment,
}

abbrev pub concat : List (List ℕ) → List ℕ
concat [] = []
concat (p ∷ ps) = p ++ concat ps

-- Chunks none of which is empty or over 4 KiB, and all of which but the last are 4 KiB.
abbrev pub IsSplit : List (List ℕ) → Type 0
IsSplit [] = Unit
IsSplit (p ∷ ps) =
    (1 ≤ length p) × (length p ≤ max_chunk) × ((length p ≡ max_chunk) ⊎ (ps ≡ [])) × IsSplit ps

module _ {W : Type 0} (usb : UsbDevice W) (pipes : BulkPipes W) where
  -- The chunks one after the other, each behind the last in the memory of the chip.
  abbrev pub send_chunks : (dst off : ℕ) (first : Bool) → List (List ℕ) → M (Loader W) (Unit {0})
  send_chunks dst off first [] = pure tt
  send_chunks dst off first (p ∷ ps) = do
    place usb pipes dst off (length p) p first
    send_chunks dst (off + length p) false ps

  submit_pkt-prefix :
      (p rest : List ℕ) → submit_pkt pipes (length p) (p ++ rest) ≡ submit_pkt pipes (length p) p
  unfolding submit_pkt
  submit_pkt-prefix p rest = rw (enough, room, take_all-append p rest, take_all p) refl
    where
      enough : ltb (length (p ++ rest)) (length p) ≡ false
      enough = ground (arith, length-append p rest)

      room : ltb (length p) (length p) ≡ false
      room = ground arith

  place-prefix :
      (dst off : ℕ) (first : Bool) (p rest : List ℕ)
      → place usb pipes dst off (length p) (p ++ rest) first
        ≡ place usb pipes dst off (length p) p first
  unfolding place send_firmware_pkt
  place-prefix dst off first p rest = rw (submit_pkt-prefix p rest) refl

  chunk-size :
      (p : List ℕ) (ps : List (List ℕ)) (remain : ℕ)
      → IsSplit (p ∷ ps)
      → remain ≡ length p + length (concat ps)
      → (if ltb max_chunk remain then max_chunk else remain) ≡ length p
  chunk-size p ps remain split whole = elim split.2 [
    | inl full ↦ ground (arith, full, whole)
    | inr last ↦
        let none_left : length (concat ps) ≡ 0 = ap (λ qs. length (concat qs)) last in
        ground (arith, split.1, none_left, whole)
  ]

  nothing_left :
      (ps : List (List ℕ)) (remain : ℕ)
      → IsSplit ps
      → remain ≡ length (concat ps)
      → remain ≤ 0
      → ps ≡ []
  nothing_left [] remain split count room = refl
  nothing_left (p ∷ ps) remain split count room =
      absurd (omega (arith, split.0, count, room, length-append p (concat ps)))

  chunk_loop-split :
      (fuel : ℕ) (ps : List (List ℕ)) (dst : ℕ) (bytes rest : List ℕ) (off remain : ℕ)
      (first : Bool) (l : Loader W)
      → IsSplit ps
      → drop off bytes ≡ concat ps ++ rest
      → remain ≡ length (concat ps)
      → remain ≤ fuel
      → chunk_loop usb pipes fuel dst bytes off remain first l ≡ send_chunks dst off first ps l
  unfolding chunk_loop
  chunk_loop-split zero ps dst bytes rest off remain first l split here count room =
      ap (λ qs. send_chunks dst off first qs l) (sym (nothing_left ps remain split count room))
  chunk_loop-split (suc fuel) [] dst bytes rest off remain first l split here count room =
      rw (chunk_loop, count) refl
  chunk_loop-split (suc fuel) (p ∷ ps) dst bytes rest off remain first l split here count room =
      let whole : remain ≡ length p + length (concat ps) = count ∙ length-append p (concat ps) in
      let more : (remain == 0) ≡ false = ground (arith, whole, split.0) in
      let size : (if ltb max_chunk remain then max_chunk else remain) ≡ length p =
        chunk-size p ps remain split whole in
      let found : drop off bytes ≡ p ++ (concat ps ++ rest) =
        here ∙ append_assoc p (concat ps) rest in
      let next : drop (off + length p) bytes ≡ concat ps ++ rest =
        drop-drop off (length p) bytes ∙ ap (drop (length p)) found ∙ drop-append p _ in
      rw (chunk_loop, more, size, found)
        (bind_same (place usb pipes dst off (length p) (p ++ (concat ps ++ rest)) first)
            (place usb pipes dst off (length p) p first)
            (λ _. chunk_loop usb pipes fuel dst bytes (off + length p) (remain - length p) false) l
            (ap (λ m. m l) (place-prefix dst off first p (concat ps ++ rest)))
          ∙ bind_ext (place usb pipes dst off (length p) p first) _ _
              (λ _ l'.
                chunk_loop-split fuel ps dst bytes rest (off + length p) (remain - length p) false
                  l' split.3 next (omega (arith, whole)) (omega (arith, whole, split.0)))
              l)

  -- A segment is downloaded whole and in order: it does what its chunks do one by one, after the
  -- reset of the checksum and before the acknowledgement, where the chunks, each of 1 to 4096 bytes
  -- and all but the last of 4096, are together the `size` bytes at the pointer. What lies behind them
  -- in memory is not looked at.
  pub download_firmware_segment-chunks :
      (ps : List (List ℕ)) (rest : List ℕ) (dst : ℕ) (l : Loader W)
      → IsSplit ps
      → download_firmware_segment usb pipes dst (concat ps ++ rest) (length (concat ps)) l
        ≡ (do on_softc (reset_checksum usb); send_chunks dst 0 true ps; finish_segment usb dst) l
  unfolding download_firmware_segment
  download_firmware_segment-chunks ps rest dst l split =
      bind_ext (on_softc (reset_checksum usb)) _ _
        (λ _ l'.
          bind_same (chunk_loop usb pipes n dst (concat ps ++ rest) 0 n true)
            (send_chunks dst 0 true ps) (λ _. finish_segment usb dst) l'
            (chunk_loop-split n ps dst (concat ps ++ rest) rest 0 n true l' split refl refl
              (omega arith)))
        l
    where
      n : ℕ
      n = length (concat ps)
