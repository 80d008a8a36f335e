-- ===== src/Policy/Classifier/Found.antt =====
-- packages/policy/src/classification/action-classifier.ts: a trial of a pattern finds an occurrence, and it
-- finds every one.
use Prim.Native.Char.{Char}
use Prim.Native.String.{String, [], ◌∷◌}
use constructie_orchestrator.Base.{[], ◌∷◌, ℕ_eq}
use constructie_orchestrator.Policy.Classifier.Pattern.{Pattern}
use constructie_orchestrator.Policy.Classifier.Occurs.{Occurs}
