-- ===== src/Scan/File.antt =====
-- The scan of one file (wms/document_scan_queue.py, `scan_uploaded_file`, and wms/document_scan.py).
pub mod Laws
use asf_wms.Prelude.{
  ℕ, zero, suc, max, ℤ, pos, negsuc, pos_part, Bool, true, false, Option, none, some, List, [], ◌∷◌,
  ◌++◌, if◌then◌else◌,
}
use asf_wms.Text.{Text, text_eq}
use asf_wms.Text.Words.{codes, strip, or_text}

pub data ScanStatus : Type 0 where
  pending clean infected error : ScanStatus

-- `_safe_int`; the value is absent where `int(value)` raises.
unfoldable pub safe_int : Option ℤ → ℕ → ℕ → ℕ
safe_int none default minimum = default
safe_int (some n) default minimum = max minimum (pos_part n)

pub data Backend : Type 0 where
  clamav noop : Backend

-- The settings: texts without spaces at their ends, empty where absent; the backend in lower case.
pub record Settings : Type 0 where
  pub backend : Text
  pub clamav_command : Text
  pub scan_timeout : Option ℤ
  pub processing_timeout : Option ℤ

-- `_scan_backend`
unfoldable pub scan_backend : Settings → Backend
scan_backend s = if text_eq s.backend (codes "noop") then noop else clamav

-- `_clamav_command`
abbrev pub clamav_command : Settings → Text
clamav_command s = or_text s.clamav_command (codes "clamscan")

-- `_scan_timeout_seconds`
abbrev pub scan_timeout_seconds : Settings → ℕ
scan_timeout_seconds s = safe_int s.scan_timeout 30 5

-- What `subprocess.run` gives: an exception, or the return code with both outputs.
pub data Outcome : Type 0 where
  command_not_found timed_out : Outcome
  raised : Text → Outcome
  completed : ℤ → Text → Text → Outcome

-- The machine: which paths exist, and what a command with a time limit gives.
pub record Machine : Type 0 where
  pub exists : Text → Bool
  pub run : List Text → ℕ → Outcome

abbrev pub verdict : ℤ → Text → ScanStatus × Text
verdict (pos zero) output = (clean, output)
verdict (pos (suc zero)) output = (infected, or_text output (codes "Fichier infecté détecté."))
verdict _ output = (error, or_text output (codes "Erreur inconnue du scan antivirus."))

unfoldable pub read_outcome : Outcome → ScanStatus × Text
read_outcome command_not_found = (error, codes "Commande ClamAV introuvable.")
read_outcome timed_out = (error, codes "Scan antivirus expiré.")
read_outcome (raised text) = (error, codes "Erreur scan antivirus: " ++ text)
read_outcome (completed return_code stdout stderr) =
    verdict return_code (strip (or_text stdout stderr))

-- `_scan_file_with_clamav`
abbrev pub scan_file_with_clamav : Machine → Settings → Text → ScanStatus × Text
scan_file_with_clamav m s path =
    read_outcome
      (m.run (clamav_command s ∷ codes "--no-summary" ∷ path ∷ []) (scan_timeout_seconds s))

-- The file of a document: none, one whose storage has no path, or one at a path.
pub data FileField : Type 0 where
  no_file remote : FileField
  at : Text → FileField

abbrev pub scan_existing : Backend → Machine → Settings → Text → ScanStatus × Text
scan_existing noop m s path = (clean, codes "Scan noop (backend de test).")
scan_existing clamav m s path = scan_file_with_clamav m s path

unfoldable pub scan_uploaded_file : Machine → Settings → FileField → ScanStatus × Text
scan_uploaded_file m s no_file = (error, codes "Fichier absent.")
scan_uploaded_file m s remote =
    (error, codes "Stockage non local: chemin fichier indisponible pour scan.")
scan_uploaded_file m s (at []) = (error, codes "Chemin fichier indisponible.")
scan_uploaded_file m s (at (c ∷ path)) =
    if m.exists (c ∷ path)
    then scan_existing (scan_backend s) m s (c ∷ path)
    else (error, codes "Fichier introuvable.")
