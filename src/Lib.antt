-- ===== src/Lib.antt =====
-- A verification library for FieldPro: the planning of a cleaning route over transit stops, the
-- worker's offline app, and the service that records what was done at a stop.
--
-- The parts and their files. Each file names the code it is about; operations keep the source's names
-- in snake case.
--   Corridor     backend/src/routing/corridorRefine.ts: the passes that a planned route goes through.
--                Corridor has the data and the direction of a run; Corridor/Regroup is
--                regroupCorridorWithinWindow; Corridor/Runs is refineCorridorRuns and
--                enforceCorridorSanity, which share the loop over_runs; Corridor/Bearing is about the
--                reading of a bearing.
--   Curbside     backend/src/routing/curbsidePostOptimize.ts: the pass before those, which moves
--                single stops to make the route shorter.
--   Queue        frontend/src/offline/offlineQueue.ts: the queue of actions that wait for the network.
--                Queue/Store is its memory and storage, Queue/Enqueue, Queue/Update and Queue/Replay
--                its operations, Queue/Query the questions that the app asks. Its state, the type
--                World, is passed from operation to operation.
--   Sync         frontend/src/offline/OfflineSyncManager.tsx: the executors that a replay runs, with the
--                calls and the error tests of frontend/src/api/routeRuns.ts. Sync/Executor makes of
--                them what Queue/Replay takes as a parameter.
--   Device       frontend/src/offline/photoStore.ts, stopDraftStore.ts and todayRouteCache.ts.
--   Planning     planRouteWithOsrm of backend/src/osrmClient.ts, and of
--                backend/src/domains/routeRun/routeRunService.ts the order in which createRouteRun puts
--                the stops, by the passes of Curbside and Corridor; Planning/Candidates is
--                getCandidateStopsForPoolWithRisk.
--   Service      what the API does when an action of the queue arrives: Service has the tables,
--                Service/Start is backend/src/domains/routeRun/operations/startRouteRunStop.ts and, in
--                Service/Start/Handlers, the two handlers of POST /route-run-stops/:id/start;
--                Service/Complete is completeStop of
--                backend/src/domains/routeRunStop/cleanLogService.ts and the handler of
--                POST /route-run-stops/:id/complete, Service/Skip that of
--                POST /route-run-stops/:id/skip-with-hazard, both of
--                backend/src/modules/work/routeRunStopRoutes.ts. Service/Life has these requests as
--                steps of the tables. Service/Visit is backend/src/domains/visit/visitService.ts,
--                Service/Evidence backend/src/domains/routeRunStop/stopPhotosService.ts, Service/Upload
--                backend/src/middleware/uploadValidation.ts and the handler of POST photos of
--                backend/src/modules/work/ulRoutes.ts; Service/Observe writes the observations.
--                Service/Run is checkAndCompleteRouteRun of
--                backend/src/domains/routeRun/routeRunService.ts, Service/Run/Routes starting, finishing
--                and assigning a run with their handlers in
--                backend/src/modules/routes/routeRunRoutes.ts, and Service/Run/Life has these as steps.
--                Service/Dispatch is the transaction in which createRouteRun writes a planned run;
--                Service/Dispatch/Create is createRouteRun as a whole with POST /route-runs, and
--                Service/Dispatch/Preview the two handlers that plan and write nothing.
--   Observation  backend/src/domains/observation/observationNormalizer.ts; in the child modules the
--                keys and rows of observationService.ts, the classes of presenceTaxonomy.ts, and the
--                scale of backend/src/domains/routeRunStop/hazardService.ts.
--   Authz        backend/src/authz.ts; Authz/Org is the organisation of a caller, of
--                backend/src/middleware/resolveOrgId.ts and auditLog.ts.
--   Cipher       backend/src/lib/oidCipher.ts: the encryption of a worker's id; Cipher/Envelope is the
--                format of the blob.
--   Csv          toCsv of backend/src/scripts/sftpExport.ts and parseCsv of
--                backend/src/modules/admin/tenantRoutes.ts; Csv/Assets is parseAssetCsv.
--   Inventory    backend/src/domains/asset/assetService.ts and its handlers in
--                backend/src/modules/admin/tenantRoutes.ts: Inventory/Configure defines what can be
--                observed of which assets, Inventory/Seed writes an inventory from a CSV, and
--                Inventory/Keyed has a table that is read by a key as a map.
--   Export       backend/src/modules/admin/exportDeleteRoutes.ts: the export of an organisation's data
--                and its deletion with a token.
--   Base         texts, lists, dictionaries, a stable sort and integers. Perm is the library's type of
--                permutations.
--
-- Loops over an index are recursion on the part of the array that is left, with fuel where the loop
-- is not structural: the loops of Corridor and Curbside are given the length of the route, and each
-- round leaves a shorter part, so that fuel is enough; the theorems below that such a function returns
-- a result include this. An Option result of these functions is none only without fuel, or for a
-- splice past the end of the array.
--
-- Parameters that stand for other code: the cost of a leg (Curbside, Planning) and the waypoints of a
-- trip (Planning); the executors of the queue and what the error tests say of a thrown value
-- (Queue/Replay), and for Sync the token, the answer of fetch and the stored photos; the clock and
-- whether the browser accepts a write (Queue/Store); the uuid of a stop and the encryption of an
-- actor's id (Service), and which row a query with LIMIT 1 and no order returns (limit_one of
-- Services); what the database accepts (Inventory); the object store (Service/Upload); the verification of a token (Authz); the
-- cipher and random bytes (Cipher); the bases, pools and places that are read, as the record Roads
-- (Service/Dispatch/Create); Number and JSON.parse (Csv/Assets, Inventory); the hash of a token and the
-- printing of a number (Export).
--
-- What is simplified: coordinates are fixed-point integers and a score is a fraction; costs are
-- natural numbers; case conversion is that of ASCII letters; objects are read by their own keys. A
-- transaction is one step: what two of them do to each other between their statements is not modelled,
-- nor is row-level security. Of the offline queue subscribe and the field executionMode are left out.
--
-- Not modelled: SQL reporting, the user interface, the archive and transfer of the export, and glue
-- around the network and the storage.
mod Base
pub mod Corridor
pub mod Curbside
pub mod Planning
pub mod Queue
pub mod Sync
pub mod Device
pub mod Authz
pub mod Cipher
pub mod Service
pub mod Observation
pub mod Csv
pub mod Export
pub mod Inventory
