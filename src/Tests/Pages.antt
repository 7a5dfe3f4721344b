-- ===== src/Tests/Pages.antt =====
-- Pages of ListTasks of src/read.rs at concrete requests.
use task_db.Prelude.{ℕ, Text, codes, some, List, [], ◌∷◌, pos, length, take, ◌≤◌, ◌≡◌, refl, arith}
use task_db.Status.{ok}
use task_db.Proto.{Task, default_meta, ListTasksRequest, ListTasksResponse}
use task_db.Engine.{Db}
use task_db.Txn.{call, autocommit, acquire, acquired}
use task_db.Sql.{scope_of, reach_of, subtree, within, visible, readable, read_predicate, with_arm}
use task_db.Sql.Where.{eval}
use task_db.Setting.{owner_reach, resolve, team_the_setting_does_not_name}
use task_db.Tables.{selects, select_rows}
use task_db.Read.{page_size, statuses, row_to_task, rows_to_tasks, order_by_id, list}
use task_db.Read.Paging.{length-list}
use task_db.Read.Walk.{listed_rows}
use task_db.Read.Answering.{walk}
use task_db.Read.Described.{described, tasks_of, list-answers}
use task_db.Read.Pages.{walk-listed_rows}
use task_db.Tests.Fixtures.{binary, alice, row, calm}
use task_db.Tests.Order.{binary-IsOrder}
use task_db.Tests.Access.{alice_clause, alice_reads}
use task_db.Tests.Writes.{one_task}

abbrev list_req : ListTasksRequest
list_req = record { scope = some alice; statuses = []; page_size = pos 1000; page_token = [] }

abbrev listed : ListTasksResponse
listed = record {
  tasks =
      record {
        meta = some (record default_meta {
          id = row.id;
          version = 1;
          project_id = row.project_id;
          owner_user_id = row.owner_user_id;
        });
        number = 1;
        title = row.title;
        body = [];
        status = pos 1;
        tags = [];
        links = [];
      }
      ∷ [];
  next_page_token = [];
}

lists : (call (list binary list_req) calm one_task).0 ≡ ok listed
unfolding call list autocommit acquire acquired select_rows selects eval within visible readable
    read_predicate with_arm reach_of subtree scope_of owner_reach resolve
    team_the_setting_does_not_name page_size statuses row_to_task rows_to_tasks order_by_id
lists = refl

length-list_example :
    (length listed.tasks ≤ page_size list_req.page_size) × (page_size list_req.page_size ≤ 500)
length-list_example = length-list binary list_req calm one_task lists

-- Two rows, not in the order of their ids, and a page for each.
abbrev two_tasks : Db
two_tasks = record one_task {
  tasks = record row { id = codes "yadgar:task:2"; number = 2 } ∷ row ∷ [];
}

abbrev short_req : ListTasksRequest
short_req = record list_req { page_size = pos 1 }

connected : acquired calm.pool ≡ ok tt
unfolding acquired
connected = refl

stated : scope_of short_req.scope ≡ ok alice
unfolding scope_of
stated = refl

any_status : statuses short_req.statuses ≡ ok []
unfolding statuses
any_status = refl

list-answers_example :
    let rows = listed_rows binary alice [] short_req.page_token two_tasks.tasks in
    let limit = page_size short_req.page_size in
    call (list binary short_req) calm two_tasks
    ≡ (described limit rows (tasks_of (take limit rows)), two_tasks)
list-answers_example =
    list-answers binary short_req calm two_tasks alice [] {clause = alice_clause} refl connected
      stated any_status alice_reads

abbrev listed_as : Text → ℕ → Task
listed_as id number = record {
  meta = some (record default_meta {
    id = id;
    version = 1;
    project_id = row.project_id;
    owner_user_id = row.owner_user_id;
  });
  number = number;
  title = row.title;
  body = [];
  status = pos 1;
  tags = [];
  links = [];
}

abbrev both_listed : List Task
both_listed = listed_as row.id 1 ∷ listed_as (codes "yadgar:task:2") 2 ∷ []

decoded : tasks_of (listed_rows binary alice [] [] two_tasks.tasks) ≡ some both_listed
unfolding rows_to_tasks row_to_task order_by_id resolve team_the_setting_does_not_name
decoded = refl

counted : length (listed_rows binary alice [] [] two_tasks.tasks) ≡ 2
unfolding order_by_id resolve team_the_setting_does_not_name
counted = refl

walk-listed_rows_example : walk binary 3 short_req calm two_tasks [] ≡ some both_listed
walk-listed_rows_example =
    walk-listed_rows binary binary-IsOrder short_req calm two_tasks alice [] {clause = alice_clause}
      refl connected stated any_status alice_reads (refl, (refl, tt)) (refl, (refl, tt)) 3 decoded
      (omega (arith, counted))
