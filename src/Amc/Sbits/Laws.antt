-- ===== src/Amc/Sbits/Laws.antt =====
-- The stored words and their number.
use ctp7_modules.Prelude.{
  ℕ, zero, suc, ◌+◌, ◌-◌, ◌*◌, ◌/◌, ◌%◌, ◌^◌, ◌<◌, ◌≤◌, List, [], ◌∷◌, ◌++◌, Bool, true, false, ltb,
  if◌then◌else◌, length, length-append, ◌≡◌, arith, ap, sym, ◌∙◌, Bool-cases, inl, inr,
}
use ctp7_modules.Effect.{Card, M, World, ok, pure, continue-eq-ok, ok-injective, spinning-ne-ok}
use ctp7_modules.Register.{write_reg, get_address, read_raw_address, write_raw_address}
use ctp7_modules.Amc.Sbits.{
  sbit_address, pack, cap_delay, is_full, cluster_addresses, read_clusters, acquire_once, acquire,
  sbit_read_out_local,
}

-- From the word stored for a cluster, the address, the size and the capped delay come back, and
-- the word has 26 bits.
pub pack-fields :
    (d c : ℕ)
    → (pack (cap_delay d) c % 2 ^ 11 ≡ sbit_address c)
      × (pack (cap_delay d) c / 2 ^ 11 % 2 ^ 3 ≡ c / 2 ^ 12 % 2 ^ 3)
      × (pack (cap_delay d) c / 2 ^ 14 ≡ cap_delay d)
      × (pack (cap_delay d) c < 2 ^ 26)
unfolding pack cap_delay sbit_address
pack-fields d c = ground arith

if-length :
    (b : Bool) (xs ys cs : List ℕ)
    → length ys ≡ length cs
    → length (if b then xs ++ ys else xs) ≤ length xs + length cs
if-length false xs ys cs n = omega arith
if-length true xs ys cs n = omega (arith, length-append xs ys)

room_le : (n : ℕ) → ltb 65000 n ≡ false → n ≤ 65000
room_le n room = ground arith

module _ {S : Type 0} (card : Card S) (now : S → ℕ) where
  cluster_addresses-length :
      (left cluster : ℕ) (w w' : World S) (l : List ℕ)
      → cluster_addresses card now cluster left w ≡ (ok l, w')
      → length l ≡ left
  unfolding cluster_addresses
  cluster_addresses-length zero cluster w w' l e = ap length (sym (ok-injective (ap (λ x. x.0) e)))
  cluster_addresses-length (suc left) cluster w w' l e =
      let (a, w1, first, others) = continue-eq-ok (get_address card _ w) _ e in
      let (rest, w2, behind, end) =
        continue-eq-ok (cluster_addresses card now (cluster + 1) left w1) _ others in
      ap length (sym (ok-injective (ap (λ x. x.0) end)))
      ∙ ap suc (cluster_addresses-length left (cluster + 1) w1 w2 rest behind)

  read_clusters-length :
      (delay : ℕ) (as' : List ℕ) (w w' : World S) (r : Bool × List ℕ)
      → read_clusters card now delay as' w ≡ (ok r, w')
      → length r.1 ≡ length as'
  unfolding read_clusters
  read_clusters-length delay [] w w' r e =
      ap (λ x. length x.1) (sym (ok-injective (ap (λ x. x.0) e)))
  read_clusters-length delay (a ∷ rest) w w' r e =
      let (v, w1, first, others) = continue-eq-ok (read_raw_address card a w) _ e in
      let (r1, w2, behind, end) = continue-eq-ok (read_clusters card now delay rest w1) _ others in
      ap (λ x. length x.1) (sym (ok-injective (ap (λ x. x.0) end)))
      ∙ ap suc (read_clusters-length delay rest w1 w2 r1 behind)

  acquire_once-length :
      (reset delay : ℕ) (clusters stored : List ℕ) (w w' : World S) (stored' : List ℕ)
      → acquire_once card now reset delay clusters stored w ≡ (ok stored', w')
      → length stored' ≤ length stored + length clusters
  unfolding acquire_once
  acquire_once-length reset delay clusters stored w w' stored' e =
      let (u, w1, e0, e1) = continue-eq-ok (write_raw_address card reset 1 w) _ e in
      let (l1ADelay, w2, e2, e3) = continue-eq-ok (read_raw_address card delay _) _ e1 in
      let (got, w3, e4, end) =
        continue-eq-ok (read_clusters card now (cap_delay l1ADelay) clusters w2) _ e3 in
      let n = read_clusters-length (cap_delay l1ADelay) clusters w2 w3 got e4 in
      let chosen : stored' ≡ (if got.0 then stored ++ got.1 else stored) =
        sym (ok-injective (ap (λ x. x.0) end)) in
      rw chosen (if-length got.0 stored got.1 clusters n)

  -- Eight words a turn, and a turn begins at 16250 words at most.
  acquire-bounded :
      (fuel reset delay : ℕ) (clusters : List ℕ) (start acquireTime : ℕ) (stored : List ℕ)
      (w w' : World S) (r : Bool × List ℕ)
      → length clusters ≡ 8
      → length stored ≤ 16258
      → acquire card now fuel reset delay clusters start acquireTime stored w ≡ (ok r, w')
      → length r.1 ≤ 16258
  unfolding acquire is_full
  acquire-bounded zero reset delay clusters start acquireTime stored w w' r n le =
      λ e. absurd (spinning-ne-ok (ap (λ x. x.0) e))
  acquire-bounded (suc fuel) reset delay clusters start acquireTime stored w w' r n le =
      elim (Bool-cases (ltb 65000 (4 * length stored))) [
        | inl full ↦ rw (full, acquire) λ e. rw (sym (ok-injective (ap (λ x. x.0) e))) le
        | inr room ↦
            rw (room, acquire)
              λ e.
                let (stored', w1, once, behind) =
                  continue-eq-ok (acquire_once card now reset delay clusters stored w) _ e in
                let n' = acquire_once-length reset delay clusters stored w w1 stored' once in
                let le' : length stored' ≤ 16258 =
                  omega (arith, room_le (4 * length stored) room) in
                let t = (now w1.hw + (2 ^ 32 - start % 2 ^ 32)) % 2 ^ 32 in
                let after = λ (b : Bool).
                  (elim b as (λ x. M S (Bool × List ℕ)) [
                    | true ↦ pure (false, stored')
                    | false ↦ acquire card now fuel reset delay clusters start acquireTime stored'
                  ])
                    w1 in
                elim (ltb acquireTime t) as (λ b. after b ≡ (ok r, w') → length r.1 ≤ 16258) [
                  | true ↦ λ end. rw (sym (ok-injective (ap (λ x. x.0) end))) le'
                  | false ↦ λ rest.
                      acquire-bounded fuel reset delay clusters start acquireTime stored' w1 w' r n
                        le' rest
                ]
                  behind
      ]

  -- What sbitReadOutLocal returns is below 65535 bytes.
  pub sbit_read_out_local-bounded :
      (fuel ohN acquireTime : ℕ) (w w' : World S) (full : Bool) (stored : List ℕ)
      → sbit_read_out_local card now fuel ohN acquireTime w ≡ (ok (full, stored), w')
      → 4 * length stored < 65535
  unfolding sbit_read_out_local
  sbit_read_out_local-bounded fuel ohN acquireTime w w' full stored e =
      let (u, w1, e1, e2) = continue-eq-ok (write_reg card _ ohN w) _ e in
      let (reset, w3, e3, e4) = continue-eq-ok (get_address card _ w1) _ e2 in
      let (delay, w5, e5, e6) = continue-eq-ok (get_address card _ w3) _ e4 in
      let (clusters, w7, e7, e8) = continue-eq-ok (cluster_addresses card now 0 8 w5) _ e6 in
      let (u', w9, e9, last) = continue-eq-ok (write_reg card _ 0 w7) _ e8 in
      let bound =
        acquire-bounded fuel reset delay clusters (now w9.hw) acquireTime [] w9 w' (full, stored)
          (cluster_addresses-length 8 0 w5 w7 clusters e7) (omega arith) last in
      omega arith
