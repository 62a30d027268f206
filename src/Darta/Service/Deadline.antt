-- ===== src/Darta/Service/Deadline.antt =====
-- The deadline of `AssignDarta` of services/darta-chalani/internal/domain/darta_service.go.
use e_palika.Prelude.{ℕ, ◌+◌, ◌*◌, ◌<◌, ◌≤◌, ◌≡◌, ◌∙◌, ap, some, arith, lt→ltb}
use e_palika.Prelude.Int.{pos, ◌+ℤ◌, ◌*ℤ◌, mul_int64, wrap, wrap_small, half64, sub_ℕ}
use e_palika.Store.Types.{Time}
use e_palika.Darta.Service.Assignment.{sla_deadline, hour}

-- The hours that an int64 of nanoseconds holds.
abbrev pub max_hours : ℕ
max_hours = 2562047

sub_zero : (n : ℕ) → sub_ℕ n 0 ≡ pos n
sub_zero n = ground arith

product : (h : ℕ) → pos h *ℤ hour ≡ pos (h * 3600000000000)
unfolding ◌*ℤ◌
product h =
    let positive : h * 3600000000000 + 0 * 0 ≡ h * 3600000000000 = omega arith in
    let negative : h * 0 + 0 * 3600000000000 ≡ 0 = omega arith in
    ap (λ n. sub_ℕ n (h * 0 + 0 * 3600000000000)) positive
    ∙ ap (sub_ℕ (h * 3600000000000)) negative
    ∙ sub_zero (h * 3600000000000)

mul_int64-hour : (h : ℕ) → h ≤ max_hours → mul_int64 (pos h) hour ≡ pos (h * 3600000000000)
unfolding mul_int64
mul_int64-hour h fits =
    ap (wrap half64) (product h)
    ∙ wrap_small half64 (h * 3600000000000) (let b : h * 3600000000000 < half64 = omega arith in b)

-- Up to 2562047 hours, the deadline is the instant of the call and that many hours, with no overflow of the
-- int64 in which Go counts the nanoseconds.
pub sla_deadline-exact :
    (now : Time) (h : ℕ)
    → 0 < h
    → h ≤ max_hours
    → sla_deadline now (some (pos h)) ≡ some (now +ℤ pos (h * 3600000000000))
unfolding sla_deadline
sla_deadline-exact now h positive fits =
    rw (lt→ltb 0 (h + 0) (let p : 0 < h + 0 = omega arith in p))
      (ap (λ t. some (now +ℤ t)) (mul_int64-hour h fits))
