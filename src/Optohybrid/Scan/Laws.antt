-- ===== src/Optohybrid/Scan/Laws.antt =====
-- The loop over the results of an ultra scan.
use native.Mathlib.Nat.{mul-le-mul_right}
use ctp7_modules.Prelude.{
  sym, ap, ◌∙◌, length-replicate, ℕ, zero, suc, ◌+◌, ◌-◌, ◌*◌, ◌%◌, ◌^◌, ◌<◌, ◌≤◌, String, List, [],
  set, length-set, get_elem?, get_elem?-set, get_elem?-set_other, lt_or_le, inl, inr, some, ◌≢◌,
  lt→ltb, lt→leb_false, le→leb, le→ltb_false, true, false, ltb, leb, length, replicate, ◌≡◌, refl,
  arith,
}
use ctp7_modules.Effect.{Card, World, Reply, idle, ok, fault, continue}
use ctp7_modules.Names.{◌◇◌, int_decimal, decimal}
use ctp7_modules.Register.{read_reg}
use ctp7_modules.Optohybrid.Scan.{result_size, result_index, put_result, read_point, read_points}
use ctp7_modules.Optohybrid.Scan.Index.{result_size-rows, result_size-wide, result_index-fits}

-- The register that gives the results of a VFAT, one after another.
abbrev pub result_reg : ℕ → ℕ → String
result_reg ohN vfatN =
    "GEM_AMC.OH.OH" ◇ int_decimal ohN ◇ ".ScanController.ULTRA.RESULTS.VFAT" ◇ decimal vfatN

module _ {S : Type 0} (next : ℕ → S → S) where
  -- The hardware behind the reads of the first `v` VFATs at one value, and behind the first `k`
  -- values.
  unfoldable pub behind : ℕ → S → S
  behind zero h = h
  behind (suc v) h = next v (behind v h)

  unfoldable pub behind_points : ℕ → S → S
  behind_points zero h = h
  behind_points (suc k) h = behind 24 (behind_points k h)

  behind-add : (v : ℕ) (h : S) → behind (v + 1) h ≡ next v (behind v h)
  unfolding behind
  behind-add v h = let e : v + 1 ≡ suc v = omega arith in ap (λ n. behind n h) e

  behind_points-add : (k : ℕ) (h : S) → behind_points (k + 1) h ≡ behind 24 (behind_points k h)
  unfolding behind_points
  behind_points-add k h = let e : k + 1 ≡ suc k = omega arith in ap (λ n. behind_points n h) e

module _ {S : Type 0} (card : Card S) (ohN : ℕ) (value : ℕ → S → ℕ) (next : ℕ → S → S)
    (reads : (v : ℕ) (h : S) (r : List Reply)
      → v < 24
      → read_reg card (result_reg ohN v) (idle h r) ≡ (ok (value v h), idle (next v h) r)) where
  -- The reads at one value fill one place for each VFAT, and no other.
  point-returns :
      (index : ℕ → ℕ) (left vfatN : ℕ) (outData : List ℕ) (h : S) (r : List Reply)
      → vfatN + left ≡ 24
      → ((i : ℕ) → i < 24 → index i < length outData)
      → ((i j : ℕ) → i < 24 → j < 24 → index i ≡ index j → i ≡ j)
      → (out : List ℕ) × (read_point card ohN index vfatN left outData
            (idle (behind next vfatN h) r)
          ≡ (ok out, idle (behind next 24 h) r))
        × (length out ≡ length outData)
        × ((i : ℕ)
            → vfatN ≤ i
            → i < 24
            → get_elem? out (index i) ≡ some (value i (behind next i h)))
        × ((j : ℕ)
            → ((i : ℕ) → vfatN ≤ i → i < 24 → index i ≢ j)
            → get_elem? out j ≡ get_elem? outData j)
  unfolding read_point put_result
  point-returns index zero vfatN outData h r le within apart =
      let all : vfatN ≡ 24 = omega arith in
      (outData, rw all refl, refl, λ i lo hi. absurd (omega arith), λ j other. refl)
  point-returns index (suc left) vfatN outData h r le within apart =
      let lt : vfatN < 24 = omega arith in
      let v : ℕ = value vfatN (behind next vfatN h) in
      let outData1 : List ℕ = set outData (index vfatN) v in
      let same : length outData1 ≡ length outData = length-set outData (index vfatN) v in
      let (out, run, len, filled, kept) =
        point-returns index left (vfatN + 1) outData1 h r (omega arith)
          (λ i lt'. rw same (within i lt')) apart in
      let away : (i : ℕ) → vfatN + 1 ≤ i → i < 24 → index i ≢ index vfatN =
        λ i lo hi e. let clash = apart i vfatN hi lt e in absurd (omega arith) in
      (
        out,
        rw (reads vfatN (behind next vfatN h) r lt, lt→ltb _ _ (within vfatN lt), continue)
            (rw (behind-add next vfatN h) at run),
        len ∙ same,
        λ i lo hi. elim (lt_or_le vfatN i) [
          | inl later ↦ filled i (omega arith) hi
          | inr first ↦
              let here : vfatN ≡ i = omega arith in
              rw (sym here)
                (kept (index vfatN) away ∙ get_elem?-set outData (index vfatN) v (within vfatN lt))
        ],
        λ j other.
            kept j (λ i lo hi. other i (omega arith) hi)
            ∙ get_elem?-set_other outData (index vfatN) j v (other vfatN (omega arith) lt),
      )

  one_point :
      (fuel dacMin dacMax dacStep dacVal next : ℕ) (outData out : List ℕ) (w w' : World S)
      → leb dacVal dacMax ≡ true
      → read_point card ohN
          (λ vfatN. result_index dacMin dacMax dacStep vfatN dacVal)
          0
          24
          outData
          w
        ≡ (ok out, w')
      → (dacVal + dacStep) % 2 ^ 32 ≡ next
      → read_points card (suc fuel) ohN dacMin dacMax dacStep dacVal outData w
        ≡ read_points card fuel ohN dacMin dacMax dacStep next out w'
  unfolding read_points
  one_point fuel dacMin dacMax dacStep dacVal next outData out w w' within got step =
      rw (within, read_points, got, step) refl

  module _ (dacMin dacStep rounds : ℕ) (pos : 0 < dacStep) (some_round : 0 < rounds)
      (fits : dacMin + rounds * dacStep < 2 ^ 32) (small : 24 * (rounds * dacStep) < 2 ^ 32) where
    abbrev dac_max : ℕ
    dac_max = dacMin + rounds * dacStep - 1

    -- The place of the result of a VFAT at the value number `k`.
    abbrev place : ℕ → ℕ → ℕ
    place vfatN k = result_index dacMin dac_max dacStep vfatN (dacMin + k * dacStep)

    place-fits :
        (i k j m : ℕ)
        → i < 24
        → k < rounds
        → j < 24
        → m < rounds
        → (place i k < 24 * rounds) × (place i k ≡ place j m → (i ≡ j) × (k ≡ m))
    place-fits i k j m lt le lt' le' =
        rw (result_size-rows dacMin dacStep rounds pos (omega arith) small some_round) at
          (result_index-fits dacMin dacStep rounds i k j m pos (omega arith) small lt le lt' le')

    abbrev Filled : S → ℕ → List ℕ → Type 0
    Filled h k out =
        (i m : ℕ)
        → i < 24
        → m < k
        → get_elem? out (place i m) ≡ some (value i (behind next i (behind_points next m h)))

    points-return :
        (left fuel k : ℕ) (outData : List ℕ) (h : S) (r : List Reply)
        → k + left ≡ rounds
        → left < fuel
        → length outData ≡ 24 * rounds
        → Filled h k outData
        → (out : List ℕ) × (read_points card fuel ohN dacMin dac_max dacStep
              (dacMin + k * dacStep)
              outData
              (idle (behind_points next k h) r)
            ≡ (ok out, idle (behind_points next rounds h) r))
          × (length out ≡ 24 * rounds)
          × Filled h rounds out
    unfolding read_points behind_points behind
    points-return left zero k outData h r run enough len done = absurd (omega arith)
    points-return zero (suc fuel) k outData h r run enough len done =
        let all : k ≡ rounds = omega arith in
        let here : k * dacStep ≡ rounds * dacStep = ap (λ (n : ℕ). n * dacStep) all in
        let wide : 1 * dacStep ≤ rounds * dacStep = mul-le-mul_right dacStep some_round in
        let over : leb (dacMin + k * dacStep) dac_max ≡ false = lt→leb_false _ _ (omega arith) in
        (
          outData,
          rw (over, read_points) (ap (λ n. (ok outData, idle (behind_points next n h) r)) all),
          len,
          λ i m lt le. done i m lt (omega arith),
        )
    points-return (suc left) (suc fuel) k outData h r run enough len done =
        let row : (k + 1) * dacStep ≤ rounds * dacStep = mul-le-mul_right dacStep (omega arith) in
        let next_row : (k + 1) * dacStep ≡ k * dacStep + dacStep = grind arith in
        let within : leb (dacMin + k * dacStep) dac_max ≡ true = le→leb _ _ (omega arith) in
        let step : (dacMin + k * dacStep + dacStep) % 2 ^ 32 ≡ dacMin + (k + 1) * dacStep =
          omega arith in
        let now : k < rounds = omega arith in
        let h1 : S = behind_points next k h in
        let (out1, e1, len1, filled, kept) =
          point-returns (λ i. place i k) 24 0 outData h1 r refl
            (λ i lt. rw len (place-fits i k i k lt now lt now).0)
            (λ i j lt lt' e. ((place-fits i k j k lt now lt' now).1 e).0) in
        let done1 : Filled h (k + 1) out1 = λ i m lt le. elim (lt_or_le m k) [
          | inl before ↦
              kept (place i m) (λ j lo hi e.
                let clash = ((place-fits j k i m hi now lt (omega arith)).1 e).1 in
                absurd (omega arith))
              ∙ done i m lt before
          | inr last ↦ let here : k ≡ m = omega arith in rw (sym here) (filled i (omega arith) lt)
        ] in
        let (out, e, len', done') =
          points-return left fuel (k + 1) out1 h r (omega arith) (omega arith) (len1 ∙ len) done1 in
        (
          out,
          one_point fuel dacMin dac_max dacStep (dacMin + k * dacStep) (dacMin + (k + 1) * dacStep)
                outData out1 (idle h1 r) (idle (behind next 24 h1) r) within e1 step
              ∙ rw (behind_points-add next k h) at e,
          len',
          done',
        )

    -- If the step divides the range of an ultra scan, the sums stay within 32 bits, and the
    -- register with the results of each VFAT reads a value that may depend on the hardware and
    -- change it, the loop over the results ends with a fuel of one more than the points, and has
    -- filled an array of 24 words for each point: at the index of each VFAT and point stands what
    -- the register of the VFAT read at that point.
    pub read_points-return :
        (fuel : ℕ) (h : S) (r : List Reply)
        → rounds < fuel
        → (out : List ℕ) × (read_points card fuel ohN dacMin dac_max dacStep dacMin
              (replicate (result_size dacMin dac_max dacStep) 0)
              (idle h r)
            ≡ (ok out, idle (behind_points next rounds h) r))
          × (length out ≡ 24 * rounds)
          × ((i m : ℕ)
              → i < 24
              → m < rounds
              → get_elem? out (place i m) ≡ some (value i (behind next i (behind_points next m h))))
    unfolding behind_points
    read_points-return fuel h r enough =
        let size = result_size-rows dacMin dacStep rounds pos (omega arith) small some_round in
        let first : dacMin + 0 * dacStep ≡ dacMin = omega arith in
        rw size (
          rw first at (
            points-return rounds fuel 0 (replicate (24 * rounds) 0) h r (omega arith) enough
              (length-replicate (24 * rounds) 0) (λ i m lt le. absurd (omega arith))))

module _ {S : Type 0} (card : Card S) (ohN v : ℕ) (w w' : World S)
    (got : read_reg card (result_reg ohN 0) w ≡ (ok v, w')) where
  read_points-empty :
      (dacMin dacMax dacStep fuel : ℕ)
      → dacMin ≤ dacMax
      → (read_points card (suc fuel) ohN dacMin dacMax dacStep dacMin [] w).0 ≡ fault
  unfolding read_points read_point put_result
  read_points-empty dacMin dacMax dacStep fuel le =
      let within = le→leb dacMin dacMax le in
      let index = result_index dacMin dacMax dacStep 0 dacMin in
      let outside : ltb index 0 ≡ false = le→ltb_false index 0 (omega arith) in
      rw (within, read_points, got, outside) refl

  -- If the step of an ultra scan is more than 24 times as wide as its range, and the results of
  -- VFAT 0 can be read, the array of the results has no word, and the loop writes outside it.
  pub read_points-overflow :
      (dacMin dacMax dacStep fuel : ℕ)
      → dacMin ≤ dacMax
      → dacMax < 2 ^ 32
      → 24 * (dacMax - dacMin + 1) < dacStep
      → dacStep < 2 ^ 32
      → (read_points card
          (suc fuel)
          ohN
          dacMin
          dacMax
          dacStep
          dacMin
          (replicate (result_size dacMin dacMax dacStep) 0)
          w).0
        ≡ fault
  read_points-overflow dacMin dacMax dacStep fuel le fits wide step_fits =
      ap (λ n. (read_points card (suc fuel) ohN dacMin dacMax dacStep dacMin (replicate n 0) w).0)
        (result_size-wide dacMin dacMax dacStep le fits wide step_fits)
      ∙ read_points-empty dacMin dacMax dacStep fuel le
