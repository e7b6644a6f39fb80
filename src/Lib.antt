-- ===== src/Lib.antt =====
-- AI Coding Training Platform: a browser extension observes submissions on judge sites, the web
-- application stores the training that follows from them and plans further work over a knowledge
-- graph. This library models the core logic of both.
--
-- The parts and their files:
--
-- Domain: the vocabularies and stored types of lib/domain (Domain.antt, Domain/Training), the
-- capture events of lib/capture/protocol.ts (Domain/Event) and the final verdicts of
-- lib/capture/verdictTaxonomy.ts (Domain/Verdict). A schema is a Boolean test over a typed value.
--
-- Reducer: the extension's state machine, extension/src/captureStateMachine.ts. Evidence about
-- requests (E1), confirmations (E2) and verdicts (E3), and the results of the submission
-- correlator, change a record per submission until a bundle of four events is built. Reducer.antt
-- has the types, Sha256 and Identity the bundle ids (sha256HexBytes, canonicalIdentityEncoding,
-- deterministicBundleId), Context the metadata (resolveContext), Bundle the effects, lookups and
-- buildSafeBundle, Evidence and its children the handlers of safe evidence, Correlator those of
-- the correlator's results, Reduce reduceCaptureState. Growth, Progress and its children follow
-- records and effects through every handler, Once does so for any sequence of inputs. Accepted has
-- the server's rule for bundles, CaptureAttemptBundleSchema of lib/capture/attemptBundle.ts.
--
-- Correlation: the extension's record of requests and of which one a page's summary belongs to,
-- extension/src/submissionCorrelator.ts. Correlation.antt has mergeE1Lifecycle, markE1Outcome and
-- recordStableIdentity over the records by request id, Correlation/Schema the checks of their
-- inputs, with e1RequestObservedSchema of extension/src/evidence.ts, Correlation/Match
-- correlateMainSummary. Collected, Answers and Candidates are about one call of it, Merge is about
-- two merged observations, Steps and Runs are about sequences of calls. The reducer takes the
-- correlator's results as inputs.
--
-- Ingest: the server's transition of a stored session and attempt under an event,
-- lib/services/captureTransition.ts. Ingest/Session, Ingest/Attempt, Ingest/Replay and
-- Ingest/Arrival are about the session, the attempt, a transition that is made twice and the order
-- of arrival.
--
-- Materialize: the ingestion of events over the database, lib/services/captureMaterializer.ts with
-- the functions of lib/repositories that it calls and the loop of
-- lib/services/captureAttemptBundle.ts. Materialize.antt has ingestCaptureEvent over the record
-- Database of SQL statements, with their laws DatabaseLaws; a row is parsed when it is read, as
-- the functions fromRow of the repositories do. The canonical id and address of a problem are a
-- parameter with the law ContextLaws, that they are left as they are. Fits is about the ids of a
-- transition, Again about an event that comes twice, Stream about a session under many events. A
-- transaction that throws leaves no database behind.
--
-- Curriculum: the knowledge graph of lib/services/curriculumGraph.ts. Curriculum/Closure has
-- prerequisiteClosure and successors, Curriculum/Order the topological order of
-- orderPublishedNodes (Build, Loop, Count, Correct and Acyclic are about it),
-- Curriculum/Eligibility evaluateNodeEligibility and the analysis of
-- lib/services/prerequisiteAnalysis.ts, which takes the closure for a node's prerequisites.
--
-- Planning: the next practice task of a learner. Planning.antt has the input of
-- lib/services/candidateTaskSelector.ts, the sets of its goals and its checks of a node,
-- Planning/Pool the candidates and their order, Planning/Select the choice of selectCandidateTask,
-- Planning/Generate generatePlan of lib/services/planGenerator.ts. Descend, Allowed, Choice and
-- Contract are about them, Planning/Agree compares the checks with the analysis of
-- Curriculum/Eligibility.
--
-- Verdicts: the join of an observed verdict with the request and the confirmed submission that it
-- belongs to, extension/src/verdictCandidateCoordinator.ts. Verdicts.antt has the data,
-- Verdicts/Request the checks of a request and the join with a record, Verdicts/Latest the search
-- for the latest request, Verdicts/Reconcile reconcileVerdictCandidates with its path for
-- candidates that name their request and the older path by time. Accounts is about the loop,
-- Picked, Joined and Justified about what a resolution rests on.
--
-- Outbox: the finished bundles of the extension on their way to the server. Outbox.antt has the
-- items and their retry (extension/src/attemptStorage.ts), Outbox/Plan planOutboxAfterFlush of
-- extension/src/outboxDrain.ts, Outbox/Send the request (extension/src/captureTransport.ts),
-- Outbox/Drain drainCaptureOutbox. Stored, Keeps and Empties are about a plan and a drain, Paced
-- about any history of the outbox, Delivery about a request. What a drain reads and writes, other
-- code that runs during a request included, is a type of worlds with the operations of
-- OutboxDrainDependencies; storage is not touched by other code between the reading that follows a
-- request and the writing of its result. The sanitizing of records when a plan is stored,
-- persistCaptureOutboxPlan, is left out; what is proved of a drain asks of it only what the
-- theorem names.
--
-- Assessment: what a session says of a learner. Assessment.antt has the outcome of
-- lib/services/trainingOutcomeClassifier.ts and the review of lib/services/reviewScheduler.ts,
-- Assessment/Ability the level of a node of lib/services/evidenceAbilityProjector.ts. Levels is
-- about both.
--
-- Common: shared names, lists, association lists, texts, integers and errors.
--
-- How code becomes definitions: a string is a list of UTF-16 code units, compared as the code
-- does; a thrown error is a value of IngestError; the runtime that handlers mutate is a record
-- that they take and give; an absent or null field is an Option; the clock is a function from the
-- number of its calls. Date.parse, URL and encodeURIComponent are the record Host of parameters,
-- the string formats of the validation package the record Formats; Date.parse, localeCompare and a
-- digest are the record AbilityHost, and the dates of reviews the parameter add_days.
--
-- Fuel: search_from, the loop of transitiveNeighbors, takes as fuel one more than the direct
-- neighbours and the sizes of all buckets, since a bucket is pushed at most once; order_from, the
-- loop of orderPublishedNodes, one more than its queue and the sum of the degrees, since a push
-- takes a degree to zero; descend, the search of the selector, two more than the number of edges,
-- since a push adds the end of an edge to its set. The rounds of SHA-256 follow the lengths of
-- their lists.
--
-- Not modelled: canonicalProblemUrl.ts and the fingerprint of an event; the handlers of the older
-- V3 events, buildLegacyBundle and the detection of conflicting spellings of one payload in
-- captureStateMachine.ts; the database, the browser's storage and messages, rendering and network
-- access. Fractions of apiTimeStamp are left out.
pub mod Assessment
pub mod Common
pub mod Correlation
pub mod Curriculum
pub mod Domain
pub mod Ingest
pub mod Materialize
pub mod Outbox
pub mod Planning
pub mod Reducer
pub mod Verdicts
