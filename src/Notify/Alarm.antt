-- ===== src/Notify/Alarm.antt =====
-- The time of the alarm.
use server_simple.Base.{ℕ, ◌+◌, ◌*◌, ◌%◌, ◌≤◌, ◌<◌, ◌≡◌, arith}
use server_simple.Notify.{Notify, alarm_time}

-- For a delay below a day, and from any local time, the recorded alarm is the local time plus the
-- delay, up to whole days; its minute is below 60, and its hour is at most 24, not always below.
pub alarm_time_lem :
    (n : Notify) (tm_hour tm_min : ℕ)
    → tm_hour < 24
    → tm_min < 60
    → n.hour < 24
    → n.minute < 60
    → let (hour, minute) = alarm_time n tm_hour tm_min in
      ((hour * 60 + minute) % 1440 ≡ (tm_hour * 60 + tm_min + n.hour * 60 + n.minute) % 1440)
      × (minute < 60)
      × (hour ≤ 24)
unfolding alarm_time
alarm_time_lem n tm_hour tm_min h m h' m' = ground arith
