-- ===== src/Execution/Compare/Stored.antt =====
-- apps/api/src/rigor_api/execution_results.py: from the report of a sandbox to the stored result.
use leetcode_platform.Prelude.{ℕ, ◌≡◌, true, none, some, List, find, refl}
use leetcode_platform.Execution.Status.{ExecutionState, to_state, is_terminal}
use leetcode_platform.Execution.Store.{Db, Clock, ExecutionRow, find_request}
use leetcode_platform.Execution.Repository.{moved_row}
use leetcode_platform.Execution.Persist.{
  TrustedExecutionProjection, resulted_row, persist_terminal_result, fits_request, fits_result,
  result_row,
}
use leetcode_platform.Execution.Persist.Stored.{result_id, persist-running, persist-shown}
use leetcode_platform.Execution.Action.{ok}
use leetcode_platform.Execution.Judge.{Python}
use leetcode_platform.Execution.Compare.{ExpectedTest, SandboxExecutionResult, trusted_compare}
use leetcode_platform.Execution.Compare.Hidden.{ids_unique, visibilities_known, comparison_sound}

-- The row `t` of the execution `k` has the projection's figures, and so has the result that the
-- candidate sees.
pub record HasOutcome (clock : Clock) (k : ℕ) (p : TrustedExecutionProjection) (db : Db)
    : Type 0 where
  pub row : ExecutionRow
  pub there : find_request k db ≡ some row
  pub ended_as : row.state ≡ to_state p.execution_status
  pub ended_at : row.completed_at ≡ some clock.utc_now
  pub took : row.runtime_ms ≡ some p.runtime_ms
  pub exited : row.exit_code ≡ some p.exit_code
  pub category : row.error_category ≡ p.error_category
  pub unowned : row.lease_owner ≡ none
  pub unleased : row.lease_expires_at ≡ none
  pub shown :
      find result_id k db.public_results
      ≡ some (record {
        execution_request_id = k;
        public_results = p.public_results;
        hidden_total = p.hidden_total;
        hidden_passed = p.hidden_passed;
        stdout = p.stdout;
        stderr = p.stderr;
        candidate_message = p.candidate_message;
      })

ended_row :
    (clock : Clock) (k : ℕ) (p : TrustedExecutionProjection) (r : ExecutionRow)
    → is_terminal p.execution_status ≡ true
    → (resulted_row k p (moved_row clock p.execution_status none none r)).completed_at
      ≡ some clock.utc_now
unfolding resulted_row moved_row
ended_row clock k p r ends = rw ends refl

-- What `trusted_compare` returns for reported tests with different ids and a question whose tests
-- are public or hidden, `persist_terminal_result` stores for a running execution, if the columns take
-- its values (`fits_request`, `fits_result`): neither the check of the transition nor the table's
-- CHECK on the hidden tests refuses it. The row then has the status, the time of completion, the
-- runtime, the exit code and the error category of the projection and no lease, and the public
-- results, the hidden counts, the output and the message are those that the candidate sees.
pub compared_result_stored :
    (py : Python) (clock : Clock) (k : ℕ) (s : SandboxExecutionResult)
    (expected : List ExpectedTest) (p : TrustedExecutionProjection) (db : Db) (r : ExecutionRow)
    → ids_unique s.tests ≡ true
    → visibilities_known expected ≡ true
    → trusted_compare py s expected ≡ ok p
    → find_request k db ≡ some r
    → r.state ≡ ExecutionState.running
    → fits_request p ≡ true
    → fits_result (result_row k p) ≡ true
    → ((persist_terminal_result clock k p db).0 ≡ ok p.execution_status)
      × HasOutcome clock k p (persist_terminal_result clock k p db).1
unfolding resulted_row moved_row
compared_result_stored py clock k s expected p db r unique known compared found running takes
      takes_result =
    let (ends, _, fits, _) = comparison_sound py s expected p unique known compared in
    let (answered, there) =
      persist-running clock k p db r found running ends fits takes takes_result in
    (
      answered,
      record {
        row = resulted_row k p (moved_row clock p.execution_status none none r);
        there = there;
        ended_as = refl;
        ended_at = ended_row clock k p r ends;
        took = refl;
        exited = refl;
        category = refl;
        unowned = refl;
        unleased = refl;
        shown = persist-shown clock k p db r found running ends fits takes takes_result;
      },
    )
