-- ===== src/Context/Tests.antt =====
-- Job ids of the source's comment, and the theorem at one.
use lattice_runner.Base.{◌≡◌, refl, codes, length, decimal}
use lattice_runner.Scheduler.Cron.{atoi, digits_value, is_digit}
use lattice_runner.Context.{deployment, tag, zeros, padded, sixteen, of_number, unit_job_id}
use lattice_runner.Context.Jobs.{unit_job_id-injective}

forty_two : unit_job_id deployment (codes "42") ≡ codes "de00000000000042"
unfolding unit_job_id of_number sixteen padded zeros tag decimal atoi digits_value is_digit
forty_two = refl

unit_job_id-injective_example :
    (deployment ≡ deployment)
    × (atoi (codes "42") ≡ atoi (codes "+42"))
    × (length (unit_job_id deployment (codes "42")) ≡ 16)
unfolding unit_job_id of_number sixteen padded zeros tag decimal atoi digits_value is_digit
unit_job_id-injective_example =
    unit_job_id-injective deployment deployment (codes "42") (codes "+42") refl refl
