-- ===== src/Broker/Files.antt =====
-- The files of a folder as a map from their names.
use gpt_trace_extractor_for.Base.{
  String, ◌≡◌, refl, ◌∙◌, sym, subst, Option, none, some, Bool, true, false, [], ◌∷◌, ◌==◌,
  string_eq, eq_iff, arith, if◌then◌else◌,
}
use mathlib.Core.Option.{some-injective}
use gpt_trace_extractor_for.Broker.{Bytes, Files, find, remove, put}

pub find-remove :
    (n name : String) (files : Files)
    → find n (remove name files) ≡ (if name == n then none else find n files)
unfolding find remove
find-remove n name [] = ground arith
find-remove n name ((m, bytes) ∷ files) =
    ground (arith, eq_iff m name, eq_iff m n, eq_iff name n, find-remove n name files)

pub find-put :
    (n name : String) (bytes : Bytes) (files : Files)
    → find n (put name bytes files) ≡ (if name == n then some bytes else find n files)
unfolding find put
find-put n name bytes files = ground (arith, eq_iff name n, find-remove n name files)

-- a property of all files
pub record Each (P : String → Bytes → Type 0) (files : Files) : Type 0 where
  pub at : (n : String) (bytes : Bytes) → find n files ≡ some bytes → P n bytes

no_file : (bytes : Bytes) → ¬ (none ≡ some bytes)
no_file bytes h = ground arith

module _ (P : String → Bytes → Type 0) where
  put_case :
      (b : Bool) (n name : String) (bytes new : Bytes) (old : Option Bytes)
      → (b ≡ true → name ≡ n)
      → P name new
      → (old ≡ some bytes → P n bytes)
      → (if b then some new else old) ≡ some bytes
      → P n bytes
  put_case true n name bytes new old e p each h =
      subst (λ m. P m bytes) (e refl) (subst (λ x. P name x) (some-injective new bytes h) p)
  put_case false n name bytes new old e p each h = each h

  remove_case :
      (b : Bool) (n : String) (bytes : Bytes) (old : Option Bytes)
      → (old ≡ some bytes → P n bytes)
      → (if b then none else old) ≡ some bytes
      → P n bytes
  remove_case true n bytes old each h = elim (no_file bytes h) [ ]
  remove_case false n bytes old each h = each h

module _ {P : String → Bytes → Type 0} where
  pub Each-put :
      (name : String) (new : Bytes) (files : Files)
      → P name new
      → Each P files
      → Each P (put name new files)
  Each-put name new files p each = record {
    at = λ n bytes h.
        put_case P (name == n) n name bytes new (find n files) (λ e. (eq_iff name n).0 e) p
          (each.at n bytes) (sym (find-put n name new files) ∙ h);
  }

  pub Each-remove : (name : String) (files : Files) → Each P files → Each P (remove name files)
  Each-remove name files each = record {
    at = λ n bytes h.
        remove_case P (name == n) n bytes (find n files) (each.at n bytes)
          (sym (find-remove n name files) ∙ h);
  }
