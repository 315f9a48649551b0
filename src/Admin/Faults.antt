-- ===== src/Admin/Faults.antt =====
-- The fail points of a store: getFailPoints, updateFailPoint and deleteFailPoint of server/store.go.
-- The package failpoint is a parameter: a registry of points with their terms.
use text.Mathlib.Text
use Prim.Native.String
use Prim.Native.String.{String}
use mock_tikv.Prelude.{Option, none, some, List, if◌then◌else◌, ◌||◌}

-- What the code calls of the package: List with Status, Enable and Disable, the last two with the text
-- of an error
pub record Failpoint : Type 1 where
  pub Points : Type 0
  pub status : Points → List (String × String)
  pub enable : Points → String → String → Points × Option String
  pub disable : Points → String → Points × Option String

-- errFailPointNotFound, or an error of the package
pub data FaultError : Type 0 where
  fail_point_not_found : FaultError
  fail_point_error : String → FaultError

abbrev pub server_busy_fail_point : String
server_busy_fail_point = "server-busy"

abbrev pub io_fail_point : String
io_fail_point = "io-timeout"

abbrev pub rpc_commit_fail_point : String
rpc_commit_fail_point = "rpc-commit-result"

-- The name of a point in the package
abbrev pub full_name : String → String
full_name point = String.◌++◌ "github.com/tikv/mock-tikv/server/" point

abbrev pub error_of : Option String → Option FaultError
error_of none = none
error_of (some text) = some (fail_point_error text)

abbrev pub or_not_found : Option String → Option FaultError
or_not_found none = some fail_point_not_found
or_not_found (some text) = some (fail_point_error text)

module _ (f : Failpoint) where
  -- getFailPoints
  abbrev pub get_fail_points : f.Points → List (String × String)
  get_fail_points points = f.status points

  -- deleteFailPoint, which ends in errFailPointNotFound
  abbrev pub deleted : f.Points × Option String → f.Points × Option FaultError
  deleted (points, error) = (points, or_not_found error)

  unfoldable pub delete_fail_point : f.Points → String → f.Points × Option FaultError
  delete_fail_point points point =
      if Text.◌==◌ point server_busy_fail_point
      then deleted (f.disable points (full_name server_busy_fail_point))
      else (points, some fail_point_not_found)

  -- updateFailPoint: the points, the only one that the store's hook lets through, and the error.
  abbrev pub updated :
      String → f.Points × Option String → f.Points × Option String × Option FaultError
  updated point (points, error) = (points, some (full_name point), error_of error)

  unfoldable pub update_fail_point :
      f.Points → Option String → String → String → f.Points × Option String × Option FaultError
  update_fail_point points hook point value =
      if Text.◌==◌ point server_busy_fail_point
        || Text.◌==◌ point io_fail_point
        || Text.◌==◌ point rpc_commit_fail_point
      then updated point (f.enable points (full_name point) value)
      else (points, hook, some fail_point_not_found)
