-- ===== src/Scan/File/Laws.antt =====
-- When a file counts as clean (wms/document_scan_queue.py, `scan_uploaded_file`).
use asf_wms.Prelude.{
  ◌≡◌, ◌↔◌, ◌⊎◌, inl, inr, refl, ℕ, zero, suc, pos, negsuc, Bool, true, false, [], ◌∷◌, ◌≢◌,
  if◌then◌else◌,
}
use asf_wms.Text.{Text}
use asf_wms.Text.Words.{codes}
use asf_wms.Scan.File.{
  ScanStatus, clean, error, FileField, no_file, remote, at, Machine, Settings, Outcome,
  command_not_found, timed_out, raised, completed, Backend, noop, clamav, scan_backend,
  clamav_command, scan_timeout_seconds, read_outcome, scan_existing, scan_uploaded_file,
}

status_code : ScanStatus → ℕ
status_code clean = 1
status_code _ = 0

-- A command that ends with the return code 0.
abbrev pub Succeeds : Outcome → Type 0
Succeeds o = (stdout : Text) × (stderr : Text) × (o ≡ completed (pos 0) stdout stderr)

outcome_clean : (o : Outcome) → (read_outcome o).0 ≡ clean → Succeeds o
unfolding read_outcome
outcome_clean command_not_found h = cc
outcome_clean timed_out h = cc
outcome_clean (raised text) h = cc
outcome_clean (completed (pos zero) stdout stderr) h = (stdout, stderr, refl)
outcome_clean (completed (pos (suc zero)) stdout stderr) h = cc
outcome_clean (completed (pos (suc (suc n))) stdout stderr) h = cc
outcome_clean (completed (negsuc n) stdout stderr) h = cc

clean_outcome : (o : Outcome) → Succeeds o → (read_outcome o).0 ≡ clean
unfolding read_outcome
clean_outcome o (stdout, stderr, h) = rw h refl

-- The file exists, and the scanner is the one that always passes or its command ends with 0.
abbrev pub Passes : Machine → Settings → Text → Type 0
Passes m s path =
    (m.exists path ≡ true)
    × ((scan_backend s ≡ noop)
        ⊎ Succeeds
            (m.run (clamav_command s ∷ codes "--no-summary" ∷ path ∷ []) (scan_timeout_seconds s)))

-- A guard that is passed.
guarded :
    (b : Bool) (x : ScanStatus × Text) (t : Text)
    → (if b then x else (error, t)).0 ≡ clean
    → (b ≡ true) × (x.0 ≡ clean)
guarded true x t h = (refl, h)
guarded false x t h = cc

module _ (m : Machine) (s : Settings) (path : Text) where
  abbrev checked : Outcome
  checked = m.run (clamav_command s ∷ codes "--no-summary" ∷ path ∷ []) (scan_timeout_seconds s)

  scanned_clean :
      (b : Backend) → (scan_existing b m s path).0 ≡ clean → (b ≡ noop) ⊎ Succeeds checked
  scanned_clean noop h = inl refl
  scanned_clean clamav h = inr (outcome_clean checked h)

  clean_scanned :
      (b : Backend) → (b ≡ noop) ⊎ Succeeds checked → (scan_existing b m s path).0 ≡ clean
  clean_scanned noop h = refl
  clean_scanned clamav (inl same) = cc
  clean_scanned clamav (inr succeeds) = clean_outcome checked succeeds

Passes-clean :
    (m : Machine) (s : Settings) (f : FileField) (path : Text)
    → f ≡ at path
    → path ≢ []
    → Passes m s path
    → (scan_uploaded_file m s f).0 ≡ clean
unfolding scan_uploaded_file
Passes-clean m s f [] e nonempty passes = absurd (nonempty refl)
Passes-clean m s f (c ∷ path) e nonempty (there, passes) =
    rw (e, there) (clean_scanned m s (c ∷ path) (scan_backend s) passes)

clean-Passes :
    (m : Machine) (s : Settings) (f : FileField)
    → (scan_uploaded_file m s f).0 ≡ clean
    → (path : Text) × (f ≡ at path) × (path ≢ []) × Passes m s path
unfolding scan_uploaded_file
clean-Passes m s no_file h = cc
clean-Passes m s remote h = cc
clean-Passes m s (at []) h = cc
clean-Passes m s (at (c ∷ path)) h =
    let (there, result) =
      guarded (m.exists (c ∷ path)) (scan_existing (scan_backend s) m s (c ∷ path))
        (codes "Fichier introuvable.") h in
    (c ∷ path, refl, (λ e. cc), (there, scanned_clean m s (c ∷ path) (scan_backend s) result))

-- A file counts as clean exactly if it is at a local path that is not empty and exists, and the backend
-- is the one that passes everything or the command of the scanner ends with the return code 0.
pub scan_uploaded_file-clean_iff :
    (m : Machine) (s : Settings) (f : FileField)
    → ((scan_uploaded_file m s f).0 ≡ clean)
      ↔ ((path : Text) × (f ≡ at path) × (path ≢ []) × Passes m s path)
scan_uploaded_file-clean_iff m s f =
    (clean-Passes m s f, λ (path, e, nonempty, passes). Passes-clean m s f path e nonempty passes)
