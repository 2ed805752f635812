-- ===== src/Vp9Dec/Frame/Safety.antt =====
-- The probabilities over any sequence of frames.
use h618_vpu_port.Base.{ℕ, Bool, false, List, [], ◌∷◌, All}
use h618_vpu_port.Vp9.Prob.Recenter.{IsProb}
use h618_vpu_port.Vp9.Context.{FrameContext, AllContext}
use h618_vpu_port.Vp9.Adapt.{SymbolCounts}
use h618_vpu_port.Vp9Dec.Frame.{Job, Vp9Context, Vp9Buffer, job_finish, job_configure}

abbrev pub IsContext : FrameContext → Type 0
IsContext c = AllContext IsProb c

-- The tables of the frame and every saved context.
abbrev pub IsValid : Vp9Context → Type 0
IsValid s = IsContext s.probability_tables × All IsContext s.frame_context

-- One job: the controls of the frame, how it ended, and what the engine left in memory.
pub record Round : Type 0 where
  pub job : Job
  pub done : Bool
  pub counts : SymbolCounts
  pub output : List ℕ

abbrev pub new_buffer : Vp9Buffer
new_buffer = record { width = 0; height = 0; bit_depth = 0; valid = false }

-- A job is configured; afterwards it is finished, whether it was decoded or not.
pub run_round : FrameContext → List ℕ → Round → Vp9Context → Vp9Context
run_round defaults cleared r s =
    (job_finish defaults r.done r.counts r.output r.job
      (new_buffer, job_configure defaults cleared r.job s)).1

pub run_rounds : FrameContext → List ℕ → List Round → Vp9Context → Vp9Context
run_rounds defaults cleared [] s = s
run_rounds defaults cleared (r ∷ rs) s =
    run_rounds defaults cleared rs (run_round defaults cleared r s)
