-- ===== src/Discovery/Tests.antt =====
-- A log over all the managers, and the theorems on it.
use ea.Common.{◌≡◌, refl}
use ea.Common.Bytes.{bytes_eq}
use ea.Common.Int.{pos}
use ea.Rocks.Store.{store}
use ea.Config.Triple.{versions, triple_eq}
use ea.Discovery.{apply_request, on_apply}
use ea.Discovery.Answers.{AreFilled, on_apply_answers}
use ea.Discovery.Consistent.{on_apply-IsConsistent}
use ea.Discovery.Held.{IsConsistent}
use ea.Discovery.Sample.{codecs, start, start-IsConsistent, log}

-- The last entry leaves the applied index.
last_index : (on_apply versions store codecs start log).0.applied_index ≡ pos 5
unfolding on_apply apply_request
last_index = refl

on_apply_answers_example : AreFilled log (on_apply versions store codecs start log).1
on_apply_answers_example = on_apply_answers versions store codecs start log

on_apply-IsConsistent_example :
    IsConsistent versions store codecs (on_apply versions store codecs start log).0
on_apply-IsConsistent_example =
    on_apply-IsConsistent versions store codecs start log start-IsConsistent
