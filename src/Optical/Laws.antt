-- ===== src/Optical/Laws.antt =====
-- The descriptors that `measure_input_power` of src/optical.cpp opens and closes.
use ctp7_modules.Prelude.{
  ℕ, zero, suc, ◌+◌, String, Bool, true, false, Option, none, some, ◌≡◌, refl, arith, ◌∙◌, [], ◌∷◌,
  Option-cases, inl, inr, ap, ◌==◌, if◌then◌else◌,
}
use ctp7_modules.Effect.{
  M, World, ok, Reply, pure, ◌>>=◌, ◌>>◌, respond, set_error, modify_hw, Message, text, naming,
  set_string, set_word_array,
}
use ctp7_modules.Names.{decimal, ◌◇◌}
use ctp7_modules.Optical.{
  Bus, power_of, read_powers, report_powers, with_device, read_cxp, read_cxps, read_minipods,
  measure_input_power,
}

-- The documented behaviour of the kernel: which descriptors are open behind each call. A new one was
-- not open before, and `close` acts on the one that it is given.
pub record Descriptors {S : Type 0} (bus : Bus S) : Type 0 where
  pub is_open : S → ℕ → Bool
  pub open_some :
      (h : S) (n : String) (d fd : ℕ)
      → (bus.open_device h n).0 ≡ some d
      → (is_open h d ≡ false)
        × (is_open (bus.open_device h n).1 fd ≡ (if d == fd then true else is_open h fd))
  pub open_none :
      (h : S) (n : String) (fd : ℕ)
      → (bus.open_device h n).0 ≡ none
      → is_open (bus.open_device h n).1 fd ≡ is_open h fd
  pub close_some :
      (h : S) (d fd : ℕ)
      → is_open (bus.close h (some d)) fd ≡ (if d == fd then false else is_open h fd)
  pub close_none : (h : S) (fd : ℕ) → is_open (bus.close h none) fd ≡ is_open h fd
  pub write_keeps : (h : S) (d a r v fd : ℕ) → is_open (bus.i2c_write h d a r v).1 fd ≡ is_open h fd
  pub read_keeps : (h : S) (d a r fd : ℕ) → is_open (bus.i2c_read h d a r).1 fd ≡ is_open h fd

-- A descriptor that is opened and closed again is as it was.
reopened :
    (d fd : ℕ) (before opened body closed at_d : Bool)
    → (d ≡ fd → at_d ≡ before)
    → at_d ≡ false
    → opened ≡ (if d == fd then true else before)
    → body ≡ opened
    → closed ≡ (if d == fd then false else body)
    → closed ≡ before
reopened d fd before opened body closed at_d same free o b c = ground arith

module _ {S : Type 0} (bus : Bus S) (c : Descriptors bus) where
  -- The call returns, with the same descriptors open as before.
  pub record Balanced {A : Type 0} (m : M S A) : Type 0 where
    pub value : World S → A
    pub behind : World S → World S
    pub returns : (w : World S) → m w ≡ (ok (value w), behind w)
    pub same : (w : World S) (fd : ℕ) → c.is_open (behind w).hw fd ≡ c.is_open w.hw fd

  pure-Balanced : {A : Type 0} (a : A) → Balanced (pure a)
  pure-Balanced a = record {
    value = λ w. a;
    behind = λ w. w;
    returns = λ w. refl;
    same = λ w fd. refl;
  }

  respond-Balanced : (r : Reply) → Balanced (respond r)
  respond-Balanced r = record {
    value = λ w. tt;
    behind = λ w. (respond r w).1;
    returns = λ w. refl;
    same = λ w fd. refl;
  }

  bind-Balanced :
      {A B : Type 0} (m : M S A) (f : A → M S B)
      → Balanced m
      → ((a : A) → Balanced (f a))
      → Balanced (m >>= f)
  bind-Balanced m f bm bf = record {
    value = λ w. (bf (bm.value w)).value (bm.behind w);
    behind = λ w. (bf (bm.value w)).behind (bm.behind w);
    returns = λ w. rw (bm.returns w) ((bf (bm.value w)).returns (bm.behind w));
    same = λ w fd. (bf (bm.value w)).same (bm.behind w) fd ∙ bm.same w fd;
  }

  read-Balanced : (d a r : ℕ) → Balanced (modify_hw (λ h. bus.i2c_read h d a r))
  read-Balanced d a r = record {
    value = λ w. (bus.i2c_read w.hw d a r).0;
    behind = λ w. record w { hw = (bus.i2c_read w.hw d a r).1 };
    returns = λ w. refl;
    same = λ w fd. c.read_keeps w.hw d a r fd;
  }

  write-Balanced : (d a r v : ℕ) → Balanced (modify_hw (λ h. bus.i2c_write h d a r v))
  write-Balanced d a r v = record {
    value = λ w. (bus.i2c_write w.hw d a r v).0;
    behind = λ w. record w { hw = (bus.i2c_write w.hw d a r v).1 };
    returns = λ w. refl;
    same = λ w fd. c.write_keeps w.hw d a r v fd;
  }

  Returns : {A : Type 0} → M S A → World S → Type 0
  Returns {A = A} m w =
      (a : A) × (w1 : World S) × (m w ≡ (ok a, w1))
      × ((fd : ℕ) → c.is_open w1.hw fd ≡ c.is_open w.hw fd)

  pointwise : {A : Type 0} (m : M S A) → ((w : World S) → Returns m w) → Balanced m
  unfolding Returns
  pointwise m h = record {
    value = λ w. (h w).0;
    behind = λ w. (h w).1;
    returns = λ w. (h w).2;
    same = λ w. (h w).3;
  }

  with_device-Balanced :
      (n shown : String) (body : ℕ → M S Bool)
      → ((d : ℕ) → Balanced (body d))
      → Balanced (with_device bus n shown body)
  unfolding with_device Returns
  with_device-Balanced n shown body b = pointwise (with_device bus n shown body) λ w.
      elim (Option-cases (bus.open_device w.hw n).0) [
        | inl e ↦
            let h = (bus.open_device w.hw n).1 in
            let closed : World S = record w {
              hw = bus.close h none;
              reply = set_string "error" (naming "Unable to open %s" shown) ∷ w.reply;
            } in
            (
              false,
              closed,
              rw (e, with_device) refl,
              λ fd. c.close_none (bus.open_device w.hw n).1 fd ∙ c.open_none w.hw n fd e,
            )
        | inr s ↦
            let (d, e) = s in
            let w1 : World S = record w { hw = (bus.open_device w.hw n).1 } in
            let w2 = (b d).behind w1 in
            (
              (b d).value w1,
              record w2 { hw = bus.close w2.hw (some d) },
              rw (e, with_device, (b d).returns w1) refl,
              λ fd.
                  reopened d fd (c.is_open w.hw fd) (c.is_open w1.hw fd) (c.is_open w2.hw fd)
                    (c.is_open (bus.close w2.hw (some d)) fd) (c.is_open w.hw d)
                    (ap (c.is_open w.hw)) (c.open_some w.hw n d fd e).0
                    (c.open_some w.hw n d fd e).1 ((b d).same w1 fd) (c.close_some w2.hw d fd),
            )
      ]

  bool-Balanced :
      {A : Type 0} (b : Bool) (m n : M S A)
      → Balanced m
      → Balanced n
      → Balanced (elim b [ true ↦ m | false ↦ n ])
  bool-Balanced true m n h k = h
  bool-Balanced false m n h k = k

  option-Balanced :
      {A B : Type 0} (o : Option B) (n : M S A) (f : B → M S A)
      → Balanced n
      → ((b : B) → Balanced (f b))
      → Balanced (elim o [ none ↦ n | some b ↦ f b ])
  option-Balanced none n f h k = h
  option-Balanced (some b) n f h k = k b

  error-Balanced : {A : Type 0} (t : Message) (a : A) → Balanced (set_error t >> pure a)
  error-Balanced t a =
      bind-Balanced _ _ (respond-Balanced (set_string "error" t)) (λ u. pure-Balanced a)

  read_powers-Balanced : (left fd dev reg : ℕ) → Balanced (read_powers bus fd dev reg left)
  unfolding read_powers
  read_powers-Balanced zero fd dev reg = pure-Balanced (some [])
  read_powers-Balanced (suc left) fd dev reg =
      let ih = read_powers-Balanced left fd dev (reg + 2) in
      bind-Balanced _ _ (read-Balanced fd dev reg) λ o.
        option-Balanced o _ _ (error-Balanced (text "i2c read failure") none) λ b.
          bind-Balanced _ _ ih λ rest.
            option-Balanced rest _ _ (pure-Balanced none) λ l. pure-Balanced (some (power_of b ∷ l))

  report_powers-Balanced :
      (key : String) (fd dev reg : ℕ) → Balanced (report_powers bus key fd dev reg)
  unfolding report_powers
  report_powers-Balanced key fd dev reg =
      bind-Balanced _ _ (read_powers-Balanced 12 fd dev reg) λ o.
        option-Balanced o _ _ (pure-Balanced false)
          λ l. bind-Balanced _ _ (respond-Balanced (set_word_array key l)) (λ u. pure-Balanced true)

  read_cxp-Balanced : (i fd : ℕ) → Balanced (read_cxp bus i fd)
  unfolding read_cxp
  read_cxp-Balanced i fd = bind-Balanced _ _ (write-Balanced fd 0x54 127 1) λ written.
      bool-Balanced written _ _ (report_powers-Balanced ("CXP" ◇ decimal i) fd 0x54 206)
        (error-Balanced (text "i2c write failure") false)

  read_cxps-Balanced : (left i : ℕ) → Balanced (read_cxps bus i left)
  unfolding read_cxps
  read_cxps-Balanced zero i = pure-Balanced true
  read_cxps-Balanced (suc left) i =
      let ih = read_cxps-Balanced left (i + 1) in
      bind-Balanced _ _
        (with_device-Balanced ("/dev/i2c-" ◇ decimal (2 + i)) ("/dev/i2c-" ◇ decimal (2 + i))
          (read_cxp bus i) (read_cxp-Balanced i))
        λ on. bool-Balanced on _ _ ih (pure-Balanced false)

  read_minipods-Balanced : (left fd i : ℕ) → Balanced (read_minipods bus fd i left)
  unfolding read_minipods
  read_minipods-Balanced zero fd i = pure-Balanced true
  read_minipods-Balanced (suc left) fd i =
      let ih = read_minipods-Balanced left fd (i + 1) in
      bind-Balanced _ _ (report_powers-Balanced ("MP" ◇ decimal i) fd (0x30 + i) 64)
        λ on. bool-Balanced on _ _ ih (pure-Balanced false)

  minipods-Balanced :
      Balanced (with_device bus "/dev/i2c-1" "i2c-1" (λ fd. read_minipods bus fd 0 3))
  minipods-Balanced =
      with_device-Balanced "/dev/i2c-1" "i2c-1" (λ fd. read_minipods bus fd 0 3)
        (λ fd. read_minipods-Balanced 3 fd 0)

  measure_input_power-Balanced : Balanced (measure_input_power bus)
  unfolding measure_input_power
  measure_input_power-Balanced = bind-Balanced _ _ (read_cxps-Balanced 3 0) λ on.
      bool-Balanced on _ _ (bind-Balanced _ _ minipods-Balanced (λ u. pure-Balanced tt))
        (pure-Balanced tt)

  -- Whichever open, read or write fails, measure_input_power returns, and each descriptor is open
  -- exactly if it was before, if the kernel treats descriptors as documented: an open gives one
  -- that was not open, and a close acts on the one that it is given.
  pub measure_input_power-closes :
      (w : World S)
      → (w1 : World S) × (measure_input_power bus w ≡ (ok tt, w1))
        × ((fd : ℕ) → c.is_open w1.hw fd ≡ c.is_open w.hw fd)
  measure_input_power-closes w =
      let b = measure_input_power-Balanced in (b.behind w, b.returns w, b.same w)
