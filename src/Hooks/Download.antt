-- ===== src/Hooks/Download.antt =====
-- `useDownloadWorkerConfigYAML` of frontend/src/lib/hooks.ts, and the header that
-- internal/worker_config/handler.go sends with the file. A header that is missing is `none`.
use industry_dashboard.Base.{
  ℕ, ◌≡◌, refl, Bool, false, ◌&&◌, ◌||◌, [], ◌∷◌, ◌++◌, Option, none, some, Codes, codes,
  starts_with, drop, leb, ◌==◌, nat_eq, arith, All, if◌then◌else◌,
}
use industry_dashboard.Api.{Response, Fetched, response, rejected, is_ok}

-- the characters that `.` of a regular expression does not match
pub is_terminator : ℕ → Bool
is_terminator c = c == 10 || c == 13 || c == 0x2028 || c == 0x2029

put_front : ℕ → Option Codes → Option Codes
put_front c none = none
put_front c (some s) = some (c ∷ s)

-- `.*"`: what stands before the last quote of the line
before_quote : Codes → Option Codes
unfolding put_front is_terminator
before_quote [] = none
before_quote (c ∷ s) =
    let rest = before_quote s in
    if is_terminator c
    then none
    else elim rest [ some p ↦ some (c ∷ p) | none ↦ if c == b'"' then some [] else none ]

-- `(.+)"` at the start of a text
captured : Codes → Option Codes
unfolding before_quote
captured [] = none
captured (c ∷ s) = if is_terminator c then none else put_front c (before_quote s)

abbrev name_mark : Codes
name_mark = codes "filename=\""

-- `match(/filename="(.+)"/)?.[1]`
match_name : Codes → Option Codes
unfolding captured
match_name [] = none
match_name (c ∷ s) =
    let later = match_name s in
    if starts_with (c ∷ s) name_mark
    then elim (captured (drop 10 (c ∷ s))) [ some name ↦ some name | none ↦ later ]
    else later

or_default : Option Codes → Codes
or_default none = codes "config.yaml"
or_default (some name) = name

-- the name of the saved file, from the header `content-disposition`
file_name : Option Codes → Codes
unfolding match_name or_default
file_name none = or_default none
file_name (some header) = or_default (match_name header)

-- What the hook ends in: an error, or a saved file with its name.
pub data Download : Type 0 where
  failed : Download
  failed_with : Codes → Download
  saved : Codes → Codes → Download

-- `useDownloadWorkerConfigYAML`; the second argument is the header of the answer
pub download : Fetched → Option Codes → Download
unfolding file_name
download rejected header = failed
download (response r) header =
    if is_ok r then saved (file_name header) r.text else failed_with r.text

-- a character of the name of a worker, in the name of its file
is_plain : ℕ → Bool
is_plain ch =
    (leb b'a' ch && leb ch b'z')
    || (leb b'A' ch && leb ch b'Z')
    || (leb b'0' ch && leb ch b'9')
    || ch == b'-'
    || ch == b'_'

sanitize : Codes → Codes
unfolding is_plain
sanitize [] = []
sanitize (ch ∷ s) = (if is_plain ch then ch else b'_') ∷ sanitize s

-- `filename` of `ExportYAML`
pub export_name : Codes → Codes
unfolding sanitize
export_name worker_name = sanitize worker_name ++ codes ".yaml"

-- the header `Content-Disposition` of `ExportYAML`
pub disposition : Codes → Codes
unfolding export_name
disposition worker_name = codes "attachment; filename=\"" ++ (export_name worker_name ++ codes "\"")

abbrev IsLine : Codes → Type 0
IsLine = All (λ c. is_terminator c ≡ false)

before_quote-append : (s : Codes) → IsLine s → before_quote (s ++ codes "\"") ≡ some s
unfolding before_quote
before_quote-append [] h = refl
before_quote-append (c ∷ s) h = rw (h.0, before_quote-append s h.1) refl

captured-append :
    (c : ℕ) (s : Codes) → IsLine (c ∷ s) → captured (c ∷ (s ++ codes "\"")) ≡ some (c ∷ s)
unfolding captured put_front
captured-append c s h = rw (h.0, before_quote-append s h.1) refl

sanitize-IsLine : (s : Codes) → IsLine (export_name s)
unfolding export_name sanitize is_terminator is_plain
sanitize-IsLine [] = (refl, (refl, (refl, (refl, (refl, tt)))))
sanitize-IsLine (ch ∷ s) = (ground arith, sanitize-IsLine s)

captured-export_name : (s : Codes) → captured (export_name s ++ codes "\"") ≡ some (export_name s)
unfolding export_name sanitize
captured-export_name [] = captured-append _ _ (sanitize-IsLine [])
captured-export_name (ch ∷ s) = captured-append _ _ (sanitize-IsLine (ch ∷ s))

-- A download of a configuration that is answered with the server's header saves the file under the name that
-- the server made of the name of the worker, whatever that is, or fails with the text of the answer.
pub download-disposition :
    (worker_name : Codes) (r : Response)
    → download (response r) (some (disposition worker_name))
      ≡ (if is_ok r then saved (export_name worker_name) r.text else failed_with r.text)
unfolding download file_name match_name or_default disposition
download-disposition worker_name r = rw (captured-export_name worker_name) refl
