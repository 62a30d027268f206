-- ===== src/Pdp/Server.antt =====
-- services/pdp/internal/grpc/server.go: the gRPC server over the decisions.
use e_palika.Prelude.{if◌then◌else◌}
use e_palika.Domain.Errors.{Error, Code, is, invalid_input, statusf}
use e_palika.Store.Exec.{Result, ok, err}
use e_palika.Pdp.Service
use e_palika.Pdp.Service.{Client, Config, AuthorizationRequest, AuthorizationResult, Decision}

abbrev pub status_of : Error → Error
status_of e =
    if is e invalid_input
    then statusf Code.invalid_argument "" e
    else statusf Code.internal "authorization evaluation failed" e

abbrev pub answer_of : Result AuthorizationResult → Result AuthorizationResult
answer_of (ok r) = ok r
answer_of (err e) = err (status_of e)

unfoldable pub check_authorization :
    Client → Config → AuthorizationRequest → Decision AuthorizationResult
unfolding is
check_authorization c cfg request =
    let (r, calls) = Service.check_authorization c cfg request in (answer_of r, calls)
