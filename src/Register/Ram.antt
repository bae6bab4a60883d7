-- ===== src/Register/Ram.antt =====
-- A card whose address space behaves like memory: the documented behaviour of `memsvc_read` and
-- `memsvc_write` on a plain register, which the theorems on round trips assume.
use ctp7_modules.Prelude.{
  ℕ, ◌+◌, ◌==◌, if◌then◌else◌, List, [], ◌∷◌, true, Option, some, ◌≡◌, refl, String,
}
use ctp7_modules.Effect.{Card, Bytes}

pub record Ram {S : Type 0} (card : Card S) : Type 0 where
  pub peek : S → ℕ → ℕ
  pub poke : S → ℕ → ℕ → S
  pub read_words : (h : S) (a n : ℕ) → card.memsvc_read h a n ≡ (some (λ i. peek h (a + i)), h)
  pub write_word : (h : S) (a v : ℕ) → card.memsvc_write h a (v ∷ []) ≡ (true, poke h a v)
  pub peek-poke : (h : S) (a v b : ℕ) → peek (poke h a v) b ≡ (if a == b then v else peek h b)

-- A card of that kind, over functions from addresses to words, for a given address table.
abbrev poke_fun : (ℕ → ℕ) → ℕ → ℕ → ℕ → ℕ
poke_fun h a v b = if a == b then v else h b

abbrev poke_list : (ℕ → ℕ) → ℕ → List ℕ → ℕ → ℕ
poke_list h a [] = h
poke_list h a (v ∷ vs) = poke_list (poke_fun h a v) (a + 1) vs

abbrev pub ram_card : (String → Option Bytes) → Card (ℕ → ℕ)
ram_card table = record {
  memsvc_open = λ h. (true, h);
  memsvc_close = λ h. (true, h);
  memsvc_read = λ h a n. (some (λ i. h (a + i)), h);
  memsvc_write = λ h a vs. (true, poke_list h a vs);
  sleep = λ t h. h;
  dbi = table;
}

abbrev pub ram_card-Ram : (table : String → Option Bytes) → Ram (ram_card table)
ram_card-Ram table = record {
  peek = λ h a. h a;
  poke = poke_fun;
  read_words = λ h a n. refl;
  write_word = λ h a v. refl;
  peek-poke = λ h a v b. refl;
}
