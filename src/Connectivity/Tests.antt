-- ===== src/Connectivity/Tests.antt =====
-- A graph of four callables, and the theorem on evidence_statistics.py at it.
use repository_quality_guard.Prelude.{String, ◌≡◌, refl, [], ◌∷◌, ◌++◌, some, distinct}
use repository_quality_guard.Connectivity.{
  Symbol, Edge, Graph, Statistics, callables, edges_of_kind, call_edges, root, link, unite,
  unite_all, roots_of, maximum, measure, unlinked, graph_statistics,
}
use repository_quality_guard.Connectivity.Measure.{IsComponents}
use repository_quality_guard.Connectivity.Report.{graph_statistics-IsComponents}

abbrev symbol : String → String → Symbol
symbol id kind = record { id = id; kind = kind }

abbrev edge : String → String → String → Edge
edge kind source target = record { kind = kind; source = source; target = target }

abbrev sample : Graph
sample = record {
  symbols =
      symbol "a" "function"
      ∷ symbol "b" "method"
      ∷ symbol "K" "class"
      ∷ symbol "c" "test"
      ∷ symbol "d" "function"
      ∷ [];
  edges =
      edge "direct_call" "a" "b"
      ∷ edge "direct_call" "a" "K"
      ∷ edge "may_dispatch" "c" "b"
      ∷ edge "callback_registration" "d" "a"
      ∷ [];
}

abbrev sample_statistics : Statistics
sample_statistics = record {
  size = 4;
  direct = 1;
  possible = 1;
  scheduled = 0;
  registrations = 1;
  calls = record { count = 2; largest = 3 };
  calls_unlinked = 1;
  augmented = record { count = 1; largest = 4 };
  augmented_unlinked = 0;
}

statistics_of_sample : graph_statistics sample ≡ some sample_statistics
unfolding graph_statistics callables edges_of_kind call_edges root link unite unite_all roots_of
    maximum measure unlinked distinct
statistics_of_sample = refl

graph_statistics-IsComponents_example :
    (r : Statistics) × ((graph_statistics sample ≡ some r)
      × IsComponents (callables sample) (call_edges sample) r.calls
      × IsComponents
          (callables sample)
          (call_edges sample ++ edges_of_kind sample "callback_registration")
          r.augmented)
graph_statistics-IsComponents_example = graph_statistics-IsComponents sample
