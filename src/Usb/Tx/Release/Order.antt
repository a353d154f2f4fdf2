-- ===== src/Usb/Tx/Release/Order.antt =====
-- What becomes of the frames that the gate held back.
use mathlib.Core.List.{append_assoc, append-nil}
use rtw88_pub.Base.{
  ℕ, zero, suc, ◌+◌, ◌≤◌, ◌<◌, ◌≡◌, refl, sym, ap, ap₂, subst, ◌∙◌, arith, Bool, true, false, not,
  List, [], ◌∷◌, ◌++◌, Option, none, some, Result, ok, err, M, All, length, length-append, ◌==◌,
  if◌then◌else◌, Option-cases, inl, inr, bind_same, when, ◌>>◌,
}
use rtw88_pub.Usb.Tx.{normal, lo, Mbuf, Net, Tx, is_voice, eapol_key_info}
use rtw88_pub.Usb.Tx.Gate.{Fifo}
use rtw88_pub.Usb.Tx.Release.{
  still_marked, unparked, release_to, release_keyed, release, kick, ptk_installed,
}

abbrev voice_of : Result (Option ℕ) → Mbuf → Bool
voice_of (ok eapol) m = is_voice eapol m.bytes
voice_of (err e) m = false

abbrev only : Bool → Mbuf → List Mbuf
only true m = m ∷ []
only false m = []

abbrev one : Bool → ℕ
one true = 1
one false = 0

length-only : (b : Bool) (m : Mbuf) → length (only b m) ≡ one b
length-only true m = refl
length-only false m = refl

-- The transfers of the two endpoints, each started or not.
abbrev pub kicked : {Q : Type 0} → (lo_too normal_too : Bool) → Tx Q → Tx Q
kicked x y s =
    let first = if x then lo ∷ s.started else s.started in
    record s { started = if y then normal ∷ first else first }

module _ {Q : Type 0} (net : Net Q) where
  -- The look for an EAPOL key stays inside the frame.
  abbrev pub Readable : Mbuf → Type 0
  Readable m = (eapol : Option ℕ) × (eapol_key_info net m.bytes ≡ ok eapol)

  abbrev pub takes_voice : Mbuf → Bool
  takes_voice m = voice_of (eapol_key_info net m.bytes) m

  -- Of the frames that are held, those for the voice queue, as they leave: in their order.
  pub voices : Option ℕ → List Mbuf → List Mbuf
  voices marker [] = []
  voices marker (m ∷ ms) =
      only (takes_voice m) (unparked net marker m) ++ voices (still_marked marker m) ms

  -- The others, which are for the best-effort queue.
  pub others : Option ℕ → List Mbuf → List Mbuf
  others marker [] = []
  others marker (m ∷ ms) =
      only (not (takes_voice m)) (unparked net marker m) ++ others (still_marked marker m) ms

  -- A queue of fewer frames than its limit takes one more.
  abbrev pub Room : (Q → List Mbuf) → ℕ → Type 0
  Room contents limit =
      (m : Mbuf) (q : Q) → length (contents q) < limit → (q' : Q) × (net.enqueue m q ≡ some q')

module _ {Q : Type 0} {net : Net Q} (fifo : Fifo net) (limit : ℕ)
    (room : Room net fifo.contents limit) where
  abbrev Moved : Bool → Mbuf → Tx Q → Tx Q → Type 0
  Moved voice m s t =
      (fifo.contents t.data_vo_q ≡ fifo.contents s.data_vo_q ++ only voice m)
      × (fifo.contents t.data_q ≡ fifo.contents s.data_q ++ only (not voice) m)
      × (t.mgmt_q ≡ s.mgmt_q)
      × (t.pending_q ≡ s.pending_q)
      × (t.m4_needs_encap ≡ s.m4_needs_encap)
      × (t.ptk_install_pending ≡ s.ptk_install_pending)
      × (t.started ≡ s.started)

  abbrev Vacant : ℕ → Tx Q → Type 0
  Vacant n s =
      (length (fifo.contents s.data_vo_q) + n ≤ limit)
      × (length (fifo.contents s.data_q) + n ≤ limit)

  release_to-Moved :
      (voice : Bool) (m : Mbuf) (s : Tx Q)
      → Vacant 1 s
      → (t : Tx Q) × (release_to net voice m s ≡ (ok (one (not voice), one voice), t))
        × Moved voice m s t
  unfolding release_to
  release_to-Moved true m s h =
      let (q, e) = room m s.data_vo_q (omega (arith, h.0)) in
      (
        record s { data_vo_q = q },
        rw e refl,
        (
          fifo.taken m s.data_vo_q q e,
          sym (append-nil (fifo.contents s.data_q)),
          refl,
          refl,
          refl,
          refl,
          refl,
        ),
      )
  release_to-Moved false m s h =
      let (q, e) = room m s.data_q (omega (arith, h.1)) in
      (
        record s { data_q = q },
        rw e refl,
        (
          sym (append-nil (fifo.contents s.data_vo_q)),
          fifo.taken m s.data_q q e,
          refl,
          refl,
          refl,
          refl,
          refl,
        ),
      )

  abbrev Released : (be vo : ℕ) → List Mbuf → Tx Q → Result (ℕ × ℕ) × Tx Q → Type 0
  Released be vo ms s out =
      (out.0
        ≡ ok (
          be + length (others net s.m4_needs_encap ms),
          vo + length (voices net s.m4_needs_encap ms),
        ))
      × (fifo.contents out.1.pending_q ≡ [])
      × (fifo.contents out.1.data_vo_q
          ≡ fifo.contents s.data_vo_q ++ voices net s.m4_needs_encap ms)
      × (fifo.contents out.1.data_q ≡ fifo.contents s.data_q ++ others net s.m4_needs_encap ms)
      × (out.1.mgmt_q ≡ s.mgmt_q)
      × (out.1.ptk_install_pending ≡ s.ptk_install_pending)
      × (out.1.started ≡ s.started)

  abbrev Fits : ℕ → List Mbuf → Tx Q → Type 0
  Fits fuel ms s = (length ms < fuel) × All (Readable net) ms × Vacant (length ms) s

  release_keyed-Moved :
      (m : Mbuf) (s : Tx Q)
      → Readable net m
      → Vacant 1 s
      → (t : Tx Q) × (release_keyed net (eapol_key_info net m.bytes) m s
          ≡ (ok (one (not (takes_voice net m)), one (takes_voice net m)), t))
        × Moved
            (takes_voice net m)
            (unparked net s.m4_needs_encap m)
            (record s { m4_needs_encap = still_marked s.m4_needs_encap m })
            t
  unfolding release_keyed
  release_keyed-Moved m s (eapol, k) h = rw k (
      release_to-Moved (is_voice eapol m.bytes) (unparked net s.m4_needs_encap m)
        (record s { m4_needs_encap = still_marked s.m4_needs_encap m }) h)

  release-none :
      (fuel be vo : ℕ) (s : Tx Q)
      → net.dequeue s.pending_q ≡ none
      → Released be vo [] s (release net (suc fuel) be vo s)
  unfolding release voices others
  release-none fuel be vo s e = rw e (
    ap₂ (λ a b. ok (a, b)) (omega arith) (omega arith),
    fifo.dry s.pending_q e,
    sym (append-nil (fifo.contents s.data_vo_q)),
    sym (append-nil (fifo.contents s.data_q)),
    refl,
    refl,
    refl,
  )

  counted :
      (x : ℕ) (b : Bool) (m : Mbuf) (rest : List Mbuf)
      → x + one b + length rest ≡ x + length (only b m ++ rest)
  counted x b m rest = omega (arith, length-append (only b m) rest, length-only b m)

  -- One frame more in front of what the rest of the loop released.
  Released-step :
      (be vo : ℕ) (m : Mbuf) (ms : List Mbuf) (s t : Tx Q) (q : Q) (out : Result (ℕ × ℕ) × Tx Q)
      → (voice : Bool) → takes_voice net m ≡ voice
      → Moved voice
          (unparked net s.m4_needs_encap m)
          (record s { pending_q = q; m4_needs_encap = still_marked s.m4_needs_encap m })
          t
      → Released (be + one (not voice)) (vo + one voice) ms t out
      → Released be vo (m ∷ ms) s out
  unfolding voices others
  Released-step be vo m ms s t q out voice v moved r =
      let x = unparked net s.m4_needs_encap m in
      let marker = still_marked s.m4_needs_encap m in
      rw v (
        r.0
            ∙ ap₂ (λ a b. ok (a, b))
                (ap (λ k. be + one (not voice) + length (others net k ms)) moved.4
                  ∙ counted be (not voice) x (others net marker ms))
                (ap (λ k. vo + one voice + length (voices net k ms)) moved.4
                  ∙ counted vo voice x (voices net marker ms)),
        r.1,
        r.2
            ∙ ap₂ (λ a k. a ++ voices net k ms) moved.0 moved.4
            ∙ append_assoc (fifo.contents s.data_vo_q) (only voice x) (voices net marker ms),
        r.3
            ∙ ap₂ (λ a k. a ++ others net k ms) moved.1 moved.4
            ∙ append_assoc (fifo.contents s.data_q) (only (not voice) x) (others net marker ms),
        r.4 ∙ moved.2,
        r.5 ∙ moved.5,
        r.6 ∙ moved.6,
      )

  -- Room for one frame and for the rest behind it.
  Vacant-rest :
      (n : ℕ) (voice : Bool) (m : Mbuf) (s t : Tx Q)
      → Moved voice m s t
      → Vacant (suc n) s
      → Vacant n t
  Vacant-rest n voice m s t moved h =
      let vo = ap length moved.0 ∙ length-append (fifo.contents s.data_vo_q) (only voice m) in
      let be = ap length moved.1 ∙ length-append (fifo.contents s.data_q) (only (not voice) m) in
      let a : one voice ≤ 1 = ground arith in
      let b : one (not voice) ≤ 1 = ground arith in
      (
        omega (arith, vo, length-only voice m, a, h.0),
        omega (arith, be, length-only (not voice) m, b, h.1),
      )

  release-order :
      (fuel be vo : ℕ) (s : Tx Q) (ms : List Mbuf)
      → fifo.contents s.pending_q ≡ ms
      → Fits fuel ms s
      → Released be vo ms s (release net fuel be vo s)
  unfolding release
  release-order zero be vo s ms c h = absurd (omega (arith, h.0))
  release-order (suc fuel) be vo s ms c h = elim (Option-cases (net.dequeue s.pending_q)) [
    | inl e ↦
        subst (λ xs. Released be vo xs s (release net (suc fuel) be vo s))
          (sym (fifo.dry s.pending_q e) ∙ c) (release-none fuel be vo s e)
    | inr ((m, q), e) ↦
        let front = sym (fifo.out s.pending_q q m e) ∙ c in
        let h' = subst (λ xs. Fits (suc fuel) xs s) (sym front) h in
        let (t, run, moved) =
          release_keyed-Moved m (record s { pending_q = q }) h'.1.0
            (omega (arith, h'.2.0), omega (arith, h'.2.1)) in
        let v = takes_voice net m in
        let held : fifo.contents t.pending_q ≡ fifo.contents q = ap fifo.contents moved.3 in
        let later = release-order fuel (be + one (not v)) (vo + one v) t (fifo.contents q) held (
          omega (arith, h'.0),
          h'.1.1,
          Vacant-rest (length (fifo.contents q)) v (unparked net s.m4_needs_encap m)
              (record s { pending_q = q; m4_needs_encap = still_marked s.m4_needs_encap m }) t moved
              h'.2,
        ) in
        subst (λ xs. Released be vo xs s (release net (suc fuel) be vo s)) front
          (rw e (
            subst (Released be vo (m ∷ fifo.contents q) s)
              (sym (
                bind_same (release_keyed net (eapol_key_info net m.bytes) m)
                  (λ _. (ok (one (not v), one v), t))
                  (λ more. release net fuel (be + more.0) (vo + more.1))
                  (record s { pending_q = q }) run))
              (Released-step be vo m (fifo.contents q) s t q
                (release net fuel (be + one (not v)) (vo + one v) t) v refl moved later)))
  ]

  abbrev tail : ℕ × ℕ → M (Tx Q) (Unit {0})
  tail released =
      when (not (released.0 == 0)) (kick net lo) >> when (not (released.1 == 0)) (kick net normal)

  kicks :
      (x y : Bool) (s : Tx Q)
      → (when x (kick net lo) >> when y (kick net normal)) s ≡ (ok tt, kicked x y s)
  unfolding kick
  kicks true true s = refl
  kicks true false s = refl
  kicks false true s = refl
  kicks false false s = refl

  -- Once the pairwise key is installed the gate is open and every frame that it held back has moved
  -- on: none is left, lost or overtaken by another of its kind. The frames for the voice queue are
  -- at its end in their order, those for the best-effort queue at the end of that one, the frame
  -- whose encryption was put off is encrypted or in plaintext, and the transfer of a queue is started
  -- exactly when it got a frame. Both queues are assumed to have room for the frames that are held,
  -- the packet queues to be first in, first out, and the look for an EAPOL key to stay inside each
  -- frame.
  pub ptk_installed-order :
      (s : Tx Q)
      → All (Readable net) (fifo.contents s.pending_q)
      → length (fifo.contents s.data_vo_q) + length (fifo.contents s.pending_q) ≤ limit
      → length (fifo.contents s.data_q) + length (fifo.contents s.pending_q) ≤ limit
      → let out = ptk_installed net s in
        let to_voice = voices net s.m4_needs_encap (fifo.contents s.pending_q) in
        let to_others = others net s.m4_needs_encap (fifo.contents s.pending_q) in
        (out.0 ≡ ok tt)
        × (out.1.ptk_install_pending ≡ false)
        × (fifo.contents out.1.pending_q ≡ [])
        × (fifo.contents out.1.data_vo_q ≡ fifo.contents s.data_vo_q ++ to_voice)
        × (fifo.contents out.1.data_q ≡ fifo.contents s.data_q ++ to_others)
        × (out.1.mgmt_q ≡ s.mgmt_q)
        × (out.1.started
            ≡ (kicked (not (length to_others == 0)) (not (length to_voice == 0)) s).started)
  unfolding ptk_installed
  ptk_installed-order s readable vo be =
      let s0 : Tx Q = record s { ptk_install_pending = false } in
      let ms = fifo.contents s.pending_q in
      let fuel = suc (net.qlen s.pending_q) in
      let x = length (others net s.m4_needs_encap ms) in
      let y = length (voices net s.m4_needs_encap ms) in
      let r =
        release-order fuel 0 0 s0 ms refl
          (omega (arith, fifo.len s.pending_q), readable, (vo, be)) in
      let u = (release net fuel 0 0 s0).1 in
      let counts : (release net fuel 0 0 s0).0 ≡ ok (x, y) =
        r.0 ∙ ap₂ (λ a b. ok (a, b)) (omega arith) (omega arith) in
      let run =
        bind_same (release net fuel 0 0) (λ t. (ok (x, y), u)) tail s0 (ap (λ a. (a, u)) counts)
        ∙ kicks (not (x == 0)) (not (y == 0)) u in
      (
        ap (λ a. a.0) run,
        ap (λ a. a.1.ptk_install_pending) run ∙ r.5,
        ap (λ a. fifo.contents a.1.pending_q) run ∙ r.1,
        ap (λ a. fifo.contents a.1.data_vo_q) run ∙ r.2,
        ap (λ a. fifo.contents a.1.data_q) run ∙ r.3,
        ap (λ a. a.1.mgmt_q) run ∙ r.4,
        ap (λ a. a.1.started) run
            ∙ ap
                (λ first.
                  let more = if not (x == 0) then lo ∷ first else first in
                  if not (y == 0) then normal ∷ more else more)
                r.6,
      )
