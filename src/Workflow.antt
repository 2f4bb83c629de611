-- ===== src/Workflow.antt =====
-- orchestrator-service: WorkflowService and WorkflowStateMachine
-- (apps/orchestrator-service/src/modules/workflow). The state is the `workflow_state` table of one
-- cycle date, whose unique key (userId, cycleDate) is then the user, with the calls of other services
-- and the events, newest first. What the other services answer in a request is its `Upstreams`.
pub mod Phase
pub mod Selection
pub mod Service
pub mod Api
pub mod Requests
pub mod Outcome
pub mod Machine
