-- ===== src/Scheduler/Tests.antt =====
-- Tests of the cron expressions, on the terms that the comments of the source name.
use lattice_runner.Base.{is_space, [], ◌≡◌, ◌↔◌, ◌⊎◌, refl, true, false, codes, text_eq, arith}
use lattice_runner.Scheduler.Cron.{
  Time, matched, failed, invalid_step, term_matches, field_matches, cron_matches, cut_first, atoi,
  digits_value, is_digit, split_by, fields, trim_space,
}
use lattice_runner.Scheduler.Jobs.{
  Job, Scheduler, new, update_schedule, has, check_and_fire, start, then_step, updated, ticked,
}
use lattice_runner.Scheduler.Jobs.Guard.{IsGuarded, Reached-IsGuarded}
use lattice_runner.Scheduler.Jobs.Due.{Among, check_and_fire-starts}
use lattice_runner.Scheduler.Cron.Render.{from_to, write_term, Hits, term_matches-Hits}

abbrev nine_thirty : Time
nine_thirty = record { minute = 30; hour = 9; day = 14; month = 7; weekday = 1 }

on_weekdays : cron_matches (codes "*/15 8-18 * * 1-5") nine_thirty ≡ true
unfolding cron_matches field_matches term_matches fields split_by is_space trim_space cut_first atoi
    digits_value is_digit text_eq
on_weekdays = refl

on_sundays : cron_matches (codes "30 9 * * 0,6") nine_thirty ≡ false
unfolding cron_matches field_matches term_matches fields split_by is_space trim_space cut_first atoi
    digits_value is_digit text_eq
on_sundays = refl

no_step : field_matches (codes "*/0") 30 0 59 ≡ failed invalid_step
unfolding field_matches term_matches split_by trim_space is_space cut_first atoi digits_value
    is_digit
no_step = refl

term_matches-Hits_example :
    (term_matches (write_term (from_to 10 40) 15) 25 0 59 ≡ matched true)
    ↔ Hits (from_to 10 40) 15 0 59 25
term_matches-Hits_example =
    term_matches-Hits (from_to 10 40) 15 25 0 59 (omega arith, omega arith) (omega arith)

abbrev nightly : Job
nightly = record {
  instance_id = 4;
  container_name = codes "db";
  engine = codes "postgres";
  database_name = codes "shop";
  username = codes "shop";
  password = codes "secret";
  cron = codes "*/15 * * * *";
  retention_count = 7;
  backup_dest = [];
}

abbrev scheduled : Scheduler
scheduled = update_schedule nightly new

-- The job fires, and is still running at the next tick.
Reached-IsGuarded_example :
    IsGuarded (check_and_fire nine_thirty (check_and_fire nine_thirty scheduled))
Reached-IsGuarded_example = Reached-IsGuarded (
    then_step (then_step (then_step start (updated nightly new)) (ticked nine_thirty scheduled))
      (ticked nine_thirty (check_and_fire nine_thirty scheduled)))

check_and_fire-starts_example : Among nightly (check_and_fire nine_thirty scheduled).running ↔ (
    Among nightly scheduled.running
    ⊎ (Among nightly scheduled.jobs
        × (cron_matches nightly.cron nine_thirty ≡ true)
        × (has nightly.instance_id scheduled.inflight ≡ false)))
check_and_fire-starts_example =
    check_and_fire-starts (then_step start (updated nightly new)) nine_thirty nightly
