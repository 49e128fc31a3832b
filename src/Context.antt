-- ===== src/Context.antt =====
-- kernel/device_context.py: all that is private to one attached device. The context's device is
-- its memory manager's.
use dev_q.Prelude.{ℕ, String, List, Option, length}
use dev_q.Memory.{MemoryManager}
use dev_q.Process.{Jobs}
use dev_q.Scheduler.{Site}
use dev_q.Scheduler.Ordered.{schedule_fcfs, schedule_sdf}
use dev_q.Scheduler.Packing.{schedule_packing}
use dev_q.Errors.{Result}

-- The shipped schedulers. None of them scores its queue.
pub data Policy : Type 0 where
  fcfs shortest_depth packing : Policy

pub record Context (F : Type 0) : Type 0 where
  pub index : ℕ
  pub name : Option String
  pub memory_manager : MemoryManager F
  pub policy : Policy
  pub queue : List ℕ
  pub shots : ℕ
  pub running_jobs : ℕ

module _ {F : Type 0} where
  unfoldable pub queue_depth : Context F → ℕ
  queue_depth c = length c.queue

  unfoldable pub schedule : Policy → Site F → Result (Site F × List ℕ)
  unfolding schedule_fcfs schedule_sdf schedule_packing
  schedule fcfs s = schedule_fcfs s
  schedule shortest_depth s = schedule_sdf s
  schedule packing s = schedule_packing s

  -- What a scheduler of this context works on, and the context afterwards.
  unfoldable pub site_of : Context F → Jobs F → Site F
  site_of c jobs = record { memory = c.memory_manager; queue = c.queue; jobs = jobs }

  unfoldable pub put_site : Context F → Site F → Context F
  put_site c s = record c { memory_manager = s.memory; queue = s.queue }
