-- ===== src/Watch/Alerts.antt =====
-- `render_checks`, `render_sarif` and `send_alerts` of src/watch.rs.
use sorseal.Base.{
  ◌-◌, ◌++◌, min, not, List, [], ◌∷◌, map, Option, none, some, length, filter, text, Text, byte_len,
  Result, ok, ◌>>=◌, unwrap_or,
}
use sorseal.Clock.{digits}
use sorseal.Interfaces.Json.{Json}
use sorseal.Runner.Build.{prefix}
use sorseal.Analyze.Render.{join_lines}
use sorseal.Watch.Check.{
  Webhook, discord, telegram, post, WatchSettings, FileStatus, unchanged, new, missing, drift,
  FileCheck, passed,
}

-- `{:?}`.
unfoldable pub status_name : FileStatus → Text
status_name unchanged = text "Unchanged"
status_name new = text "New"
status_name missing = text "Missing"
status_name drift = text "Drift"

-- The first twelve bytes of a hash, or all of it; a cut within a character panics.
unfoldable pub short_hash : Option Text → Result Text
short_hash hash = let h = unwrap_or hash (text "?") in prefix (min 12 (byte_len h)) h

unfoldable pub detail : FileCheck → FileStatus → Result (Text × Text)
detail c unchanged = ok (text "PASSED", text "unchanged")
detail c new = ok (text "PASSED", text "new — baseline recorded")
detail c missing = ok (text "FAILED", text "file missing")
detail c drift = do
  base ← short_hash c.baseline_hash
  curr ← short_hash c.current_hash
  ok (text "FAILED", text "sha256 mismatch: baseline " ++ (base ++ (text ", current " ++ curr)))

unfoldable pub check_lines : List FileCheck → Result (List Text)
check_lines [] = ok []
check_lines (c ∷ rest) = do
  (icon, said) ← detail c c.status
  later ← check_lines rest
  ok ((icon ++ (text "  " ++ (c.label ++ (text " — " ++ said)))) ∷ later)

unfoldable pub render_checks : List FileCheck → Result Text
render_checks checks = do
  lines ← check_lines checks
  let good = length (filter passed checks)
  let summary =
      digits 20 (length checks)
      ++ (text " files checked: "
          ++ (digits 20 good
              ++ (text " passed, " ++ (digits 20 (length checks - good) ++ text " failed"))))
  ok (join_lines (text "Sorseal — file integrity watch" ∷ [] ∷ (lines ++ ([] ∷ summary ∷ []))))

-- A message to a webhook.
pub record Request (J : Json) : Type 0 where
  pub url : Text
  pub body : J.Value

unfoldable pub failed_line : FileCheck → Text
failed_line c = text "- `" ++ (c.path ++ (text "` — " ++ status_name c.status))

unfoldable pub alert_text : List FileCheck → Text
alert_text failed = join_lines (text "**sorseal watch — drift detected**" ∷ map failed_line failed)

-- What fails has the level `error`.
unfoldable pub level_of : FileStatus → Text
level_of missing = text "error"
level_of drift = text "error"
level_of _ = text "none"

module _ (J : Json) where
  unfoldable pub optional : Option Text → J.Value
  optional none = J.null
  optional (some s) = J.string s

  unfoldable pub failed_file : FileCheck → J.Value
  failed_file c = J.object (
      ("path", J.string c.path)
      ∷ ("label", J.string c.label)
      ∷ ("status", J.string (status_name c.status))
      ∷ ("baseline", optional c.baseline_hash)
      ∷ ("current", optional c.current_hash)
      ∷ [])

  unfoldable pub request : List FileCheck → Webhook → Request J
  request failed (discord url) = record {
    url = url;
    body = J.object (("content", J.string (alert_text failed)) ∷ []);
  }
  request failed (telegram token chat_id) = record {
    url = text "https://api.telegram.org/bot" ++ (token ++ text "/sendMessage");
    body = J.object (
        ("chat_id", J.string chat_id)
        ∷ ("text", J.string (alert_text failed))
        ∷ ("parse_mode", J.string (text "Markdown"))
        ∷ []);
  }
  request failed (post url) = record {
    url = url;
    body =
        J.object
          (("event", J.string (text "drift")) ∷ ("files", J.array (map failed_file failed)) ∷ []);
  }

  -- The requests that are sent, whatever each of them is answered: an error is printed only.
  unfoldable pub send_alerts : WatchSettings → List FileCheck → List (Request J)
  send_alerts config [] = []
  send_alerts config (c ∷ failed) = map (request (c ∷ failed)) config.webhooks

  unfoldable pub sarif_result : FileCheck → J.Value
  sarif_result c = J.object (
      ("ruleId", J.string (text "SORSEAL/watch"))
      ∷ ("level", J.string (level_of c.status))
      ∷ (
        "message",
        J.object (("text", J.string (c.label ++ (text " — " ++ status_name c.status))) ∷ []),
      )
      ∷ (
        "locations",
        J.array (
            J.object (
              (
                "physicalLocation",
                J.object (
                    ("artifactLocation", J.object (("uri", J.string c.path) ∷ []))
                    ∷ ("region", J.object (("startLine", J.number 1) ∷ []))
                    ∷ []),
              )
              ∷ [])
            ∷ []),
      )
      ∷ (
        "properties",
        J.object (
            ("label", J.string c.label)
            ∷ ("status", J.string (status_name c.status))
            ∷ ("baseline_sha256", optional c.baseline_hash)
            ∷ ("current_sha256", optional c.current_hash)
            ∷ []),
      )
      ∷ [])

  unfoldable pub watch_rule : J.Value
  watch_rule = J.object (
      ("id", J.string (text "SORSEAL/watch"))
      ∷ ("name", J.string (text "file-integrity"))
      ∷ (
        "shortDescription",
        J.object (("text", J.string (text "Detects unauthorized file changes")) ∷ []),
      )
      ∷ (
        "helpUri",
        J.string (text "https://github.com/BreachDirect/sorseal#file-integrity-monitoring"),
      )
      ∷ (
        "properties",
        J.object (
            ("tags", J.array (J.string (text "security") ∷ J.string (text "file-integrity") ∷ []))
            ∷ []),
      )
      ∷ [])

  -- The value that is printed; the version is the package's.
  unfoldable pub render_sarif : Text → List FileCheck → J.Value
  render_sarif version checks = J.object (
      ("$schema", J.string (text "https://json.schemastore.org/sarif-2.1.0.json"))
      ∷ ("version", J.string (text "2.1.0"))
      ∷ (
        "runs",
        J.array (
            J.object (
              (
                "tool",
                J.object (
                    (
                      "driver",
                      J.object (
                          ("name", J.string (text "sorseal"))
                          ∷ ("fullName", J.string (text "sorseal — file integrity monitor"))
                          ∷ (
                            "informationUri",
                            J.string (text "https://github.com/BreachDirect/sorseal"),
                          )
                          ∷ ("version", J.string version)
                          ∷ ("rules", J.array (watch_rule ∷ []))
                          ∷ []),
                    )
                    ∷ []),
              )
              ∷ ("results", J.array (map sarif_result (filter (λ c. not (passed c)) checks)))
              ∷ [])
            ∷ []),
      )
      ∷ [])
