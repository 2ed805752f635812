-- ===== src/H264/Job/Start.antt =====
-- cedrus_enc_h264_setup's last step, which applies the values of the controls when streaming starts.
use h618_vpu_port.Base.{◌≡◌, List, [], ◌∷◌}
use h618_vpu_port.H264.Job.{
  Context, State, Ctrl, ctrl_profile, ctrl_entropy_mode, Controls, ctrl_prepare,
}

-- A control with its cur.val: of the two controls that a handler can change, the value when its turn comes.
pub current : Controls → Ctrl → Ctrl
current k (ctrl_profile v) = ctrl_profile k.profile
current k (ctrl_entropy_mode b) = ctrl_entropy_mode k.cabac
current k c = c

-- The handlers of the controls in a list, called in turn: what v4l2_ctrl_handler_setup does, by its
-- documentation, with the controls in the order in which they were created, that of the engine's table.
pub apply_ctrls : List Ctrl → Controls × Context × State → Controls × Context × State
apply_ctrls [] x = x
apply_ctrls (c ∷ cs) x = apply_ctrls cs (ctrl_prepare (current x.0 c) x)

-- A control whose handler sets neither the profile nor the entropy mode.
abbrev pub IsOther : Ctrl → Type 0
IsOther (ctrl_profile v) = ⊥
IsOther (ctrl_entropy_mode b) = ⊥
IsOther c = Unit

abbrev Keeps : Controls × Context × State → Controls × Context × State → Type 0
Keeps x y = (y.0 ≡ x.0) × (y.1.profile ≡ x.1.profile) × (y.1.cabac ≡ x.1.cabac)
