-- ===== src/Usb/Tx/Release.antt =====
-- rtw88_cam_task once the pairwise key is installed: the gate opens and the frames that it held back
-- move to the queues of their endpoints. The rest of the task is in Usb/Keys.
pub mod Order
use rtw88_pub.Base.{
  ℕ, zero, suc, ◌+◌, Bool, true, false, not, List, ◌∷◌, Option, none, some, Result, ok, err,
  undefined, M, ◌>>=◌, ◌>>◌, pure, throw, get, modify, when, bit_and, ◌==◌, if◌then◌else◌, set,
  get_or,
}
use rtw88_pub.Usb.Tx.{Mbuf, Net, Endpoint, normal, lo, Tx, is_voice, eapol_key_info}

-- Whether a frame is the one whose encryption was put off until the key is there.
abbrev pub is_m4 : Option ℕ → Mbuf → Bool
is_m4 none m = false
is_m4 (some tag) m = tag == m.tag

-- The marker is taken by its frame.
abbrev pub still_marked : Option ℕ → Mbuf → Option ℕ
still_marked marker m = if is_m4 marker m then none else marker

module _ {Q : Type 0} (net : Net Q) where
  -- A frame that cannot be encrypted is sent as plaintext.
  unfoldable pub encap_or_plain : Option Mbuf → Mbuf → Mbuf
  encap_or_plain (some encrypted) m = encrypted
  encap_or_plain none m = record m { bytes = set m.bytes 1 (bit_and (get_or m.bytes 1 0) 0xbf) }

  pub unparked : Option ℕ → Mbuf → Mbuf
  unparked marker m = if is_m4 marker m then encap_or_plain (net.encap m) m else m

  -- How many frames went to best effort and to voice: a frame that is refused is freed.
  pub release_to : Bool → Mbuf → M (Tx Q) (ℕ × ℕ)
  release_to true m = do
    s ← get
    elim (net.enqueue m s.data_vo_q) [
      | none ↦ pure (0, 0)
      | some q ↦ do modify (λ (t : Tx Q). record t { data_vo_q = q }); pure (0, 1)
    ]
  release_to false m = do
    s ← get
    elim (net.enqueue m s.data_q) [
      | none ↦ pure (0, 0)
      | some q ↦ do modify (λ (t : Tx Q). record t { data_q = q }); pure (1, 0)
    ]

  pub release_keyed : Result (Option ℕ) → Mbuf → M (Tx Q) (ℕ × ℕ)
  release_keyed (err e) m = throw e
  release_keyed (ok eapol) m = do
    s ← get
    modify (λ (t : Tx Q). record t { m4_needs_encap = still_marked t.m4_needs_encap m })
    release_to (is_voice eapol m.bytes) (unparked s.m4_needs_encap m)

  -- The loop over the pending queue, on fuel.
  pub release : ℕ → (be vo : ℕ) → M (Tx Q) (ℕ × ℕ)
  release zero be vo = throw undefined
  release (suc fuel) be vo = do
    s ← get
    elim (net.dequeue s.pending_q) [
      | none ↦ pure (be, vo)
      | some (m, q) ↦ do
        modify (λ (t : Tx Q). record t { pending_q = q })
        more ← release_keyed (eapol_key_info net m.bytes) m
        release fuel (be + more.0) (vo + more.1)
    ]

  pub kick : Endpoint → M (Tx Q) (Unit {0})
  kick e = modify (λ (t : Tx Q). record t { started = e ∷ t.started })

  -- One round for every frame that is held, and one to see that there are no more.
  pub ptk_installed : M (Tx Q) (Unit {0})
  ptk_installed = do
    s ← get
    modify (λ (t : Tx Q). record t { ptk_install_pending = false })
    released ← release (suc (net.qlen s.pending_q)) 0 0
    when (not (released.0 == 0)) (kick lo)
    when (not (released.1 == 0)) (kick normal)
