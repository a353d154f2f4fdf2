-- ===== src/Bf.antt =====
-- sys/dev/rtw88/rtw88_bf.c: what the handle keeps of beamforming. The chip is not programmed yet.
pub mod Assoc
use rtw88_pub.Base.{
  ℕ, ◌^◌, Bool, true, false, not, ◌&&◌, ◌||◌, List, [], ◌∷◌, replicate, M, ◌>>=◌, ◌>>◌, pure, get,
  modify, bit_and, has, if◌then◌else◌,
}
use rtw88_pub.Device.{BfState, Dev, bf_assoc, debug_inc}

-- Either capability of the access point is enough.
pub ap_has_txbf : ℕ → ℕ → Bool
ap_has_txbf htcap vhtcap = has htcap (2 ^ 20) || has vhtcap (2 ^ 11)

module _ {B : Type 0} where
  pub bf_attach : M (Dev B) (Unit {0})
  bf_attach = modify (λ (d : Dev B). record d {
    bf = record {
      attached = true;
      su_active = false;
      mu_active = false;
      peer_mac = replicate 6 0;
      paid = 0;
      gid = 0;
    };
  })

  pub bf_associate : List ℕ → (htcap vhtcap aid : ℕ) → M (Dev B) (Unit {0})
  bf_associate peer_mac htcap vhtcap aid = do
    d ← get
    elim (not d.bf.attached || not d.chip.bf_su_supported) [
      | true ↦ pure tt
      | false ↦ elim (ap_has_txbf htcap vhtcap) [
        | false ↦ modify (λ (e : Dev B). record e { bf = record e.bf { su_active = false } })
        | true ↦ do
          modify (λ (e : Dev B). record e {
            bf = record e.bf {
              peer_mac = peer_mac;
              paid = bit_and aid 0x1ff;
              gid = 0;
              su_active = true;
            };
          })
          debug_inc bf_assoc
      ]
    ]

  pub bf_disassoc : M (Dev B) (Unit {0})
  bf_disassoc = do
    d ← get
    elim d.bf.attached [
      | false ↦ pure tt
      | true ↦ modify (λ (e : Dev B). record e {
        bf = record e.bf { su_active = false; mu_active = false; paid = 0; gid = 0 };
      })
    ]
