-- ===== src/Tests/Windows.antt =====
-- The window of a node that answers with an error.
use sorseal.Base.{◌≡◌, refl, arith, [], ◌∷◌, ok, some, none, text}
use sorseal.Interfaces.Services.{Value, Transport}
use sorseal.Audit.Window.{parse_u32, window_request, rpc_ledger_window}
use sorseal.Audit.Window.Printed.{window_message, rpc_ledger_window-window_message}
use sorseal.Tests.Concrete.{plain_services}

numbers_read : parse_u32 (text "+12") ≡ some 12
unfolding parse_u32 text sorseal.Audit.Window.parse_from
numbers_read = refl

too_large : parse_u32 (text "4294967296") ≡ none
unfolding parse_u32 text sorseal.Audit.Window.parse_from
too_large = refl

abbrev message : Value plain_services
message = plain_services.json.string (window_message 100 2500)

abbrev error : Value plain_services
error = plain_services.json.object (("message", message) ∷ [])

abbrev response : Value plain_services
response = plain_services.json.object (("error", error) ∷ [])

abbrev node : Transport plain_services
node request = ok response

rpc_ledger_window-window_message_example : rpc_ledger_window plain_services node ≡ ok (100, 2500)
rpc_ledger_window-window_message_example =
    rpc_ledger_window-window_message plain_services node response error message 100 2500 refl refl
      refl refl (omega arith) (omega arith)
