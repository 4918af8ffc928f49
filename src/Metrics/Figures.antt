-- ===== src/Metrics/Figures.antt =====
-- The figures of src/modules/metrics. A minute is its number since 1970, which its label
-- `2026-09-24T06:05` stands for, and so is a day.
use chat_app_backend.Prelude.{ℕ, List}

pub data PushOutcome : Type 0 where
  sent failed expired : PushOutcome

-- `metrics:messages:m:{minute}`, `metrics:messages:d:{day}`, `metrics:push:{outcome}:d:{day}`
pub data CounterKey : Type 0 where
  messages_in_minute messages_on_day : ℕ → CounterKey
  pushes_on_day : PushOutcome → ℕ → CounterKey

pub record SeriesPoint : Type 0 where
  pub minute : ℕ
  pub messages : ℕ

pub record AgentCounts : Type 0 where
  pub online : ℕ
  pub busy : ℕ
  pub offline : ℕ

pub record ConversationCounts : Type 0 where
  pub opened : ℕ
  pub waiting_in_queue : ℕ

pub record MessageCounts : Type 0 where
  pub last_minute : ℕ
  pub last_hour : ℕ
  pub today : ℕ

pub record PushCounts : Type 0 where
  pub sent : ℕ
  pub failed : ℕ
  pub expired : ℕ

pub record MetricsSnapshot : Type 0 where
  pub timestamp : ℕ
  pub active_users : ℕ
  pub agents : AgentCounts
  pub conversations : ConversationCounts
  pub messages : MessageCounts
  pub push : PushCounts
  pub connections_on_this_server : ℕ

pub record MetricsUpdate : Type 0 where
  pub snapshot : MetricsSnapshot
  pub messages_per_minute : List SeriesPoint

-- A calendar day of the time zone is its number, which its label `2026-09-24` stands for.
pub record DailyPoint : Type 0 where
  pub date : ℕ
  pub messages : ℕ
  pub previous : ℕ

pub record Analytics : Type 0 where
  pub days : ℕ
  pub time_zone : ℕ
  pub from_day : ℕ
  pub to_day : ℕ
  pub total : ℕ
  pub previous_total : ℕ
  pub daily : List DailyPoint
  pub by_weekday : List ℕ
  pub closed : ℕ
  pub previous_closed : ℕ
  pub generated_at : ℕ

-- `metrics:analytics:v1:{days}:{tz}`
pub record AnalyticsQuery : Type 0 where
  pub days : ℕ
  pub tz : ℕ
