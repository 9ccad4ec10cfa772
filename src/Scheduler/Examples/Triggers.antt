-- ===== src/Scheduler/Examples/Triggers.antt =====
-- The theorems on triggers at concrete inputs.
use ai_lab_os.Prelude.{
  ◌+◌, ◌*◌, ◌≤◌, ◌<◌, ◌≡◌, ◌↔◌, refl, true, some, List, [], ◌∷◌, ◌++◌, arith, codes,
}
use ai_lab_os.Scheduler.Models.{Instant, aware, second, minute, hour}
use ai_lab_os.Scheduler.Samples.{midnight}
use ai_lab_os.Scheduler.Cron.Parse.{Text, cron_steps, text_steps}
use ai_lab_os.Scheduler.Cron.Parse.Grammar.{Accepted, spaced, words, text_steps_iff}
use ai_lab_os.Scheduler.Cron.Next.{next_cron, Matches}
use ai_lab_os.Scheduler.Cron.Next.Earliest.{next_cron_earliest, next_cron_total}
use ai_lab_os.Scheduler.Cron.Scan.{first_hit}

abbrev half_past : Instant
half_past = midnight + 9 * hour + 30 * minute + second

quarter_steps : cron_steps "*/15 */2 * * *" ≡ some (15, 2)
unfolding cron_steps
quarter_steps = refl

quarter_next : next_cron "*/15 */2 * * *" (aware half_past) ≡ some (midnight + 10 * hour)
unfolding next_cron cron_steps first_hit
quarter_next = refl

next_cron_earliest_example :
    (half_past < midnight + 10 * hour)
    × Matches 15 2 (midnight + 10 * hour)
    × ((u : Instant) → Matches 15 2 u → half_past < u → midnight + 10 * hour ≤ u)
next_cron_earliest_example =
    next_cron_earliest "*/15 */2 * * *" half_past (midnight + 10 * hour) 15 2 quarter_steps
      quarter_next

next_cron_total_example : (t : Instant) × (next_cron "*/15 */2 * * *" (aware half_past) ≡ some t)
next_cron_total_example =
    next_cron_total "*/15 */2 * * *" half_past 15 2 quarter_steps (omega arith)

abbrev quarter_fields : List (Text × Text)
quarter_fields =
    (codes "*/15", 32 ∷ [])
    ∷ (codes "*/2", 32 ∷ 32 ∷ [])
    ∷ (codes "*", 9 ∷ [])
    ∷ (codes "*", 32 ∷ [])
    ∷ (codes "*", [])
    ∷ []

text_steps_iff_example :
    (text_steps (32 ∷ [] ++ spaced quarter_fields) ≡ some (15, 2))
    ↔ Accepted (words quarter_fields) 15 2
unfolding ai_lab_os.Prelude.is_space
text_steps_iff_example = text_steps_iff (32 ∷ []) quarter_fields 15 2 (ground arith) (ground arith)
