-- ===== src/Optohybrid/Config/Laws.antt =====
-- What the configuration files of the VFAT2 chips do.
use package.text.Mathlib.Text.{◌==◌ as str_eq}
use ctp7_modules.Prelude.{
  ℕ, zero, suc, String, List, [], ◌∷◌, false, Option, none, some, length, ◌≡◌, refl, sym, ap, arith,
  Option-cases, inl, inr,
}
use ctp7_modules.Effect.{Card, World, Reply, ok, text, set_string}
use ctp7_modules.Files.{Files, body_lines, extract_words, extract_word, ◌then_get◌}
use ctp7_modules.Register.{write_raw_reg}
use ctp7_modules.Optohybrid.Config.{load_threshold, load_thresholds, load_vt1_local}

then_get-eq-some :
    {A B : Type 0} (o : Option A) (f : A → Option B) {b : B}
    → (o then_get f) ≡ some b
    → (a : A) × (o ≡ some a) × (f a ≡ some b)
then_get-eq-some none f h = cc
then_get-eq-some (some a) f h = (a, refl, h)

-- A line that can be read gives as many numbers as were asked for.
pub extract_words-length :
    (n : ℕ) (s : String) (vs : List ℕ) → extract_words n s ≡ some vs → length vs ≡ n
unfolding extract_words
extract_words-length zero s vs h = let e : [] ≡ vs = cc in ap length (sym e)
extract_words-length (suc n) s vs h =
    let (p, got, h') = then_get-eq-some (extract_word s) _ h in
    let (ws, more, h'') = then_get-eq-some (extract_words n p.1) _ h' in
    let same : p.0 ∷ ws ≡ vs = cc in
    omega (arith, ap length same, extract_words-length n p.1 ws more)

abbrev not_found : Reply
not_found = set_string "error" (text "Register not found")

module _ {S : Type 0} (card : Card S) (nameless : card.dbi "" ≡ none) where
  threshold_line :
      (vs : List ℕ) (w : World S)
      → length vs ≡ 3
      → load_threshold card vs w ≡ (ok tt, record w { reply = not_found ∷ not_found ∷ w.reply })
  unfolding load_threshold write_raw_reg
  threshold_line [] w h = absurd (omega arith)
  threshold_line (a ∷ []) w h = absurd (omega arith)
  threshold_line (a ∷ b ∷ []) w h = absurd (omega arith)
  threshold_line (a ∷ b ∷ c ∷ []) w h = rw (nameless, write_raw_reg) refl
  threshold_line (a ∷ b ∷ c ∷ d ∷ vs) w h = absurd (omega arith)

  threshold_lines :
      (lines : List String) (w : World S)
      → (r : List Reply) × (load_thresholds card lines w ≡ (ok tt, record w { reply = r }))
  unfolding load_thresholds
  threshold_lines [] w = (w.reply, refl)
  threshold_lines (line ∷ rest) w = elim (Option-cases (extract_words 3 line)) [
    | inl bad ↦ (
      set_string "error" (text "Error reading settings") ∷ w.reply,
      rw (bad, load_thresholds) refl,
    )
    | inr (vs, good) ↦
        let (r, e) = threshold_lines rest (record w { reply = not_found ∷ not_found ∷ w.reply }) in
        (r, rw (good, load_thresholds, threshold_line vs w (extract_words-length 3 line vs good)) e)
  ]

  -- In an address table without an empty name, loadVT1 with a configuration file leaves the
  -- hardware as it was, whatever the file says.
  pub load_vt1_local-no_effect :
      (fuel : ℕ) (files : Files) (ohN : ℕ) (config_file : String) (vt1 : ℕ) (w : World S)
      → str_eq config_file "" ≡ false
      → (r : List Reply) × (load_vt1_local card fuel files ohN config_file vt1 w
          ≡ (ok tt, record w { reply = r }))
  unfolding load_vt1_local
  load_vt1_local-no_effect fuel files ohN config_file vt1 w named =
      let (r, e) = threshold_lines (body_lines (files config_file)) w in (r, rw named e)
