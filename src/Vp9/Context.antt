-- ===== src/Vp9/Context.antt =====
-- struct v4l2_vp9_frame_context: the probabilities of a frame, each array as a list of its rows.
pub mod Rows
use h618_vpu_port.Base.{ℕ, ◌==◌, if◌then◌else◌, Bool, List, All}

pub record MvProbs : Type 0 where
  pub joint : List ℕ
  pub sign : List ℕ
  pub classes : List (List ℕ)
  pub class0_bit : List ℕ
  pub bits : List (List ℕ)
  pub class0_fr : List (List (List ℕ))
  pub fr : List (List ℕ)
  pub class0_hp : List ℕ
  pub hp : List ℕ

-- coef[transform size][plane type][is inter][band][context] are three probabilities.
pub record FrameContext : Type 0 where
  pub tx8 : List (List ℕ)
  pub tx16 : List (List ℕ)
  pub tx32 : List (List ℕ)
  pub coef : List (List (List (List (List (List ℕ)))))
  pub skip : List ℕ
  pub inter_mode : List (List ℕ)
  pub interp_filter : List (List ℕ)
  pub is_inter : List ℕ
  pub comp_mode : List ℕ
  pub single_ref : List (List ℕ)
  pub comp_ref : List ℕ
  pub y_mode : List (List ℕ)
  pub uv_mode : List (List ℕ)
  pub partition : List (List ℕ)
  pub mv : MvProbs

-- The fields of struct v4l2_ctrl_vp9_frame that the helper reads; a flag of `flags` is a Boolean.
pub record Frame : Type 0 where
  pub key_frame : Bool
  pub intra_only : Bool
  pub error_resilient : Bool
  pub allow_high_prec_mv : Bool
  pub interpolation_filter : ℕ
  pub reference_mode : ℕ
  pub reset_frame_context : ℕ
  pub frame_context_idx : ℕ

abbrev pub tx_mode_select : ℕ
tx_mode_select = 4

abbrev pub interp_filter_switchable : ℕ
interp_filter_switchable = 4

abbrev pub reference_mode_single : ℕ
reference_mode_single = 0

abbrev pub reference_mode_compound : ℕ
reference_mode_compound = 1

abbrev pub reference_mode_select : ℕ
reference_mode_select = 2

abbrev pub reset_frame_ctx_spec : ℕ
reset_frame_ctx_spec = 1

abbrev pub reset_frame_ctx_all : ℕ
reset_frame_ctx_all = 2

-- BAND_6: the first band has three contexts.
abbrev pub band_6 : ℕ → ℕ
band_6 band = if band == 0 then 3 else 6

-- A predicate of every entry.
abbrev pub AllMv : (ℕ → Type 0) → MvProbs → Type 0
AllMv P m =
    All P m.joint
    × All P m.sign
    × All (All P) m.classes
    × All P m.class0_bit
    × All (All P) m.bits
    × All (All (All P)) m.class0_fr
    × All (All P) m.fr
    × All P m.class0_hp
    × All P m.hp

-- The probabilities of inter frames.
abbrev pub AllInter : (ℕ → Type 0) → FrameContext → Type 0
AllInter P c =
    All (All P) c.inter_mode
    × All (All P) c.interp_filter
    × All P c.is_inter
    × All P c.comp_mode
    × All (All P) c.single_ref
    × All P c.comp_ref
    × All (All P) c.y_mode
    × All (All P) c.uv_mode
    × All (All P) c.partition
    × AllMv P c.mv

-- The probabilities of every frame.
abbrev pub AllCommon : (ℕ → Type 0) → FrameContext → Type 0
AllCommon P c =
    All (All P) c.tx8
    × All (All P) c.tx16
    × All (All P) c.tx32
    × All (All (All (All (All (All P))))) c.coef
    × All P c.skip

abbrev pub AllContext : (ℕ → Type 0) → FrameContext → Type 0
AllContext P c = AllCommon P c × AllInter P c
