-- ===== src/Engine/Info/Sections.antt =====
-- The fields of a reply to `INFO` that are read, and those that are not.
use store_monitor.Common.{
  ℕ, suc, ◌≡◌, refl, ap, ◌∙◌, Bool, some, [], ◌∷◌, ◌++◌, append_assoc, Str, ℤ, drop, str_eq,
}
use store_monitor.Common.Text.Search.{strchr, Lacks, strchr-found, Lacks-append}
use store_monitor.Engine.Info.{InfoFields, set_field, read_info}

-- A field as redis sends it.
unfoldable pub field : Str → Str → Str
field key value = key ++ b':' ∷ (value ++ b'\r' ∷ b'\n' ∷ [])

module _ (use_old : Bool) (last : ℤ) where
  read_info-step :
      (fuel c : ℕ) (s key behind value rest : Str) (t : InfoFields)
      → strchr b':' (c ∷ s) ≡ some (key, behind)
      → strchr b'\r' behind ≡ some (value, rest)
      → read_info use_old last (suc fuel) (c ∷ s) t
        ≡ read_info use_old last fuel (drop 1 rest) (set_field use_old last key value t)
  unfolding read_info
  read_info-step fuel c s key behind value rest t e f = rw (read_info, e, f) refl

  read_info-field :
      (fuel c : ℕ) (key value rest : Str) (t : InfoFields)
      → Lacks b':' (c ∷ key)
      → Lacks b'\r' value
      → read_info use_old last (suc fuel) (field (c ∷ key) value ++ rest) t
        ≡ read_info use_old last fuel rest (set_field use_old last (c ∷ key) value t)
  unfolding field
  read_info-field fuel c key value rest t k v =
      ap (λ z. read_info use_old last (suc fuel) (c ∷ z) t)
        (append_assoc key (b':' ∷ (value ++ b'\r' ∷ b'\n' ∷ [])) rest
          ∙ ap (λ z. key ++ b':' ∷ z) (append_assoc value (b'\r' ∷ b'\n' ∷ []) rest))
      ∙ read_info-step fuel c _ (c ∷ key) (value ++ b'\r' ∷ b'\n' ∷ rest) value (b'\n' ∷ rest) t
          (strchr-found b':' (c ∷ key) (value ++ b'\r' ∷ b'\n' ∷ rest) k)
          (strchr-found b'\r' value (b'\n' ∷ rest) v)

  -- The first field behind the header of a section, as in `# Memory\r\nused_memory:1\r\n`, is passed
  -- over: the header and the line break are taken for a part of its key.
  pub section-lost :
      (fuel : ℕ) (title key value rest : Str) (t : InfoFields)
      → Lacks b':' title
      → Lacks b':' key
      → Lacks b'\r' value
      → read_info use_old last
          (suc fuel)
          (field (b'#' ∷ title ++ b'\r' ∷ b'\n' ∷ key) value ++ rest)
          t
        ≡ read_info use_old last fuel rest t
  section-lost fuel title key value rest t h k v =
      read_info-field fuel b'#' (title ++ b'\r' ∷ b'\n' ∷ key) value rest t
        (refl, Lacks-append b':' title (b'\r' ∷ b'\n' ∷ key) h (refl, (refl, k))) v
      ∙ ap (read_info use_old last fuel rest) (unfold set_field in unfold str_eq in refl)
