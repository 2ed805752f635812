-- ===== src/H264/Headers/Steps.antt =====
-- The loop over the headers: it ends, and it writes what the step asks for.
use h618_vpu_port.Base.{ℕ, suc, ◌≡◌, refl, List, some}
use h618_vpu_port.H264.Enums.{HeaderStep, step_start, step_sps, step_pps, step_slice}
use h618_vpu_port.H264.Bits.{Put, Coded}
use h618_vpu_port.H264.Job.{Context, State, Job}
use h618_vpu_port.H264.Headers.{
  Format, pps_calls, slice_calls, job_configure_sps, job_configure_pps, job_configure_slice_header,
  job_configure_headers,
}

-- The headers of a step: both parameter sets, the picture's alone, or none, and the slice header.
pub headers : HeaderStep → (List Put → ℕ) → Context → State → Job → Format → Coded → Coded
headers step_start len c st job f s =
    job_configure_slice_header c st job
      (job_configure_pps len st job (job_configure_sps len c job f s))
headers step_sps len c st job f s =
    job_configure_slice_header c st job
      (job_configure_pps len st job (job_configure_sps len c job f s))
headers step_pps len c st job f s =
    job_configure_slice_header c st job (job_configure_pps len st job s)
headers step_slice len c st job f s = job_configure_slice_header c st job s

headers_from :
    (step : HeaderStep) (fuel : ℕ) (len : List Put → ℕ) (c : Context) (st : State) (job : Job)
    (f : Format) (s : Coded)
    → job_configure_headers (suc (suc (suc (suc fuel)))) len c job f (record st { step = step }, s)
      ≡ some (record st { step = step_slice }, headers step len c st job f s)
unfolding job_configure_headers headers job_configure_pps pps_calls job_configure_slice_header
    slice_calls
headers_from step_start fuel len c st job f s = refl
headers_from step_sps fuel len c st job f s = refl
headers_from step_pps fuel len c st job f s = refl
headers_from step_slice fuel len c st job f s = refl

-- The loop ends within four turns. It writes the parameter sets that the step asks for and then the
-- slice header, in the order of the standard, and the next job without a change writes the slice
-- header alone.
pub job_configure_headers-eq-headers :
    (fuel : ℕ) (len : List Put → ℕ) (c : Context) (st : State) (job : Job) (f : Format) (s : Coded)
    → job_configure_headers (suc (suc (suc (suc fuel)))) len c job f (st, s)
      ≡ some (record st { step = step_slice }, headers st.step len c st job f s)
job_configure_headers-eq-headers fuel len c st job f s = headers_from st.step fuel len c st job f s
