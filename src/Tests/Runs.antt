-- ===== src/Tests/Runs.antt =====
-- The theorems on sequences of calls of the darta service, and on two calls that overlap, at concrete inputs.
use e_palika.Prelude.{◌≡◌, refl, none, some, true, [], ◌∷◌, arith}
use e_palika.Prelude.Int.{pos}
use e_palika.Store.Types.{Darta}
use e_palika.Store.Exec.{Db, ok}
use e_palika.Store.Table.{find}
use e_palika.Store.Checks.{darta_checks}
use e_palika.Store.Dartas
use e_palika.Store.Dartas.{darta_key, max_number}
use e_palika.Store.Dartas.Laws.{later}
use e_palika.Store.History.{IsRetained, IsGrown}
use e_palika.Store.Distinct.{HasDistinctNumbers, appended-Distinct, single-Distinct}
use e_palika.Store.Linked.{AreLinked}
use e_palika.Store.Linked.Reads.{Agree, get_darta-Agree}
use e_palika.Darta.Service.{store_number}
use e_palika.Darta.Service.Reservation.{numbered}
use e_palika.Darta.Service.Race.{ArePeers, race-collides}
use e_palika.Grpc.Darta.Requests.{Request, Serves, serve}
use e_palika.Grpc.Darta.History.{
  Serves-IsRetained, Serves-IsGrown, Serves-HasDistinctNumbers, Serves-AreLinked,
}
use e_palika.Tests.Samples.{office, desk, classified, registered, letter, packages, clerk}

found_registered : find darta_key 2 desk.dartas ≡ some registered
unfolding find
found_registered = refl

-- Two calls, the second one when time has passed and the next statement fails.
abbrev after_one : Db
after_one = (serve packages office (Request.reserve_number "|||") desk).1

abbrev waiting : Db
waiting = record after_one { now = pos 2000; uuids = 30 ∷ []; outages = true ∷ [] }

abbrev after_two : Db
after_two = (serve packages office (Request.close "||") waiting).1

run : Serves packages desk after_two
run = Serves.call office desk after_two (Request.reserve_number "|||") (
    Serves.pass (pos 2000) (30 ∷ []) (true ∷ []) after_one after_two
      (Serves.call office waiting after_two (Request.close "||") (Serves.none after_two)))

Serves-IsRetained_example : IsRetained registered after_two
Serves-IsRetained_example =
    Serves-IsRetained packages desk after_two 2 registered run found_registered

Serves-IsGrown_example : IsGrown desk.audit after_two.audit
Serves-IsGrown_example = Serves-IsGrown packages desk after_two run

desk-HasDistinctNumbers : HasDistinctNumbers desk
desk-HasDistinctNumbers = record {
  distinct = appended-Distinct (registered ∷ []) classified refl (single-Distinct registered);
}

Serves-HasDistinctNumbers_example : HasDistinctNumbers after_two
Serves-HasDistinctNumbers_example =
    Serves-HasDistinctNumbers packages desk after_two run desk-HasDistinctNumbers

desk-AreLinked : AreLinked desk
desk-AreLinked = record { linked = (refl, (refl, tt)) }

Serves-AreLinked_example : AreLinked after_two
Serves-AreLinked_example = Serves-AreLinked packages desk after_two run desk-AreLinked

get_darta-Agree_example : Agree (Dartas.get_darta 2 desk) (Dartas.get_darta_simple 2 desk)
get_darta-Agree_example = get_darta-Agree desk desk-AreLinked 2

-- A second darta that waits for its number.
abbrev twin : Darta
twin = letter 40 none none "DRAFT"

abbrev queue : Db
queue = record desk { dartas = classified ∷ twin ∷ [] }

twins : ArePeers queue classified twin
unfolding find darta_checks
twins = record {
  found_a = refl;
  found_b = refl;
  apart = λ e. omega (arith, e);
  together = refl;
  checked_a = refl;
  checked_b = refl;
  ward_a = refl;
  key_a = refl;
  key_b = refl;
}

race-collides_example :
    (Dartas.get_next_darta_number "2081" "MUNICIPALITY" none "default" (later queue [])
      ≡ (ok 1, later queue []))
    × (Dartas.get_next_darta_number "2081" "MUNICIPALITY" none "default" (later queue [])
        ≡ (ok 1, later queue []))
    × ((store_number clerk classified 3 1 (later queue [])).0 ≡ ok (numbered queue classified 1))
    × ((store_number clerk twin 40 1
          (later (store_number clerk classified 3 1 (later queue [])).1 [])).0
        ≡ ok (numbered (store_number clerk classified 3 1 (later queue [])).1 twin 1))
unfolding max_number
race-collides_example = race-collides clerk clerk queue classified twin twins (omega arith)
