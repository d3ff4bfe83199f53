-- ===== src/Runs.antt =====
-- The router as a whole: what can happen to it, one handler at a time, and what holds however long it
-- runs. A handler runs to its end before the next one starts (src/nlsr.cpp, `startEventLoop`). The
-- expiry of a FIB entry, which takes a name out of the FIB alone, is not among the steps.
pub mod Untouching
pub mod Asking
pub mod Agreement
use ndnproject.Prelude.{Bool, Double, Eq, NdnName, Option, Str, ℕ, ◌+◌}
use ndnproject.Calculation.{calculate}
use ndnproject.Fib.{Timeout}
use ndnproject.Hello
use ndnproject.Lsa.{NameLsa, AdjLsa, CoordinateLsa}
use ndnproject.Lsdb.Adjacencies
use ndnproject.Lsdb.Coordinates
use ndnproject.Lsdb.Messages
use ndnproject.Lsdb.Names
use ndnproject.NamePrefixTable.Changes.{Agrees}
use ndnproject.Nlsr.{Nlsr}
use ndnproject.Nlsr.Events.{on_face_destroyed}
use ndnproject.PrefixUpdate.{Verb, on_command_validated}
use ndnproject.Sync.{SyncUpdate, process_update_from_sync}

module _ {Name D : Type 0} ⦃e : Eq Name⦄ ⦃n : NdnName Name⦄ ⦃d : Double D⦄ where
  pub data Step (s : Nlsr Name D) : Nlsr Name D → Type 0 where
    time_passes : (seconds : ℕ) → Step s (record s { now = s.now + seconds })
    lsa_received :
        (origin_router : Option Name) (ls_type : Str) (seq_no : ℕ) (nlsa : Option (NameLsa Name))
        (alsa : Option (AdjLsa Name D)) (clsa : Option (CoordinateLsa Name D))
        → Step s (Messages.on_content_validated s origin_router ls_type seq_no nlsa alsa clsa)
    lsa_asked :
        (origin_router : Option Name) (ls_type : Str) (seq_no : ℕ)
        → Step s (Messages.process_interest s origin_router ls_type seq_no)
    lsa_timed_out :
        (count deadline : ℕ) (lsa_name : Name) (ls_type : Str) (seq_no : ℕ)
        → Step s (Messages.process_interest_timed_out s count deadline lsa_name ls_type seq_no)
    lsa_refused :
        (deadline : ℕ) (lsa_name : Name) (seq_no : ℕ)
        → Step s (Messages.on_content_validation_failed s deadline lsa_name seq_no)
    sync_received : (update : SyncUpdate Name) → Step s (process_update_from_sync s update)
    name_lsa_due : (key : Name) (seq_no : ℕ) → Step s (Names.expire_or_refresh s key seq_no)
    adj_lsa_due : (key : Name) (seq_no : ℕ) → Step s (Adjacencies.expire_or_refresh s key seq_no)
    coordinate_lsa_due :
        (key : Name) (seq_no : ℕ) → Step s (Coordinates.expire_or_refresh s key seq_no)
    coordinate_lsa_built : Step s (Coordinates.build_and_install_own_coordinate_lsa s)
    adj_lsa_build_due : Step s (Adjacencies.build_scheduled s)
    routes_calculated : Step s (calculate s)
    command : (verb : Verb) (p : Option (Name × Bool)) → Step s (on_command_validated s verb p)
    hello_due : Step s (Hello.send_scheduled s)
    hello_asked :
        (component : Str) (neighbor : Name) → Step s (Hello.process_interest s component neighbor)
    hello_timed_out :
        (component : Str) (neighbor : Name)
        → Step s (Hello.process_interest_timed_out s component neighbor)
    hello_answered :
        (component : Str) (neighbor : Name)
        → Step s (Hello.on_content_validated s component neighbor)
    face_created :
        (face_id : ℕ) (neighbor keys : Name) (strategy : Str) (timeout : Timeout)
        → Step s (Hello.on_registration_success s face_id neighbor keys strategy timeout)
    face_refused : (name : Name) → Step s (Hello.on_registration_failure s name)
    face_destroyed : (face_id : ℕ) → Step s (on_face_destroyed s face_id)

  pub data Run (s : Nlsr Name D) : Nlsr Name D → Type 0 where
    start : Run s s
    then_step : {t u : Nlsr Name D} → Run s t → Step t u → Run s u
